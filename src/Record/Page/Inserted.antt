-- ===== src/Record/Page/Inserted.antt =====
-- `take_slot`: the page part of `RecordFile::insert`.
use rs_redbase.Prelude.{ℕ, ◌+◌, ◌*◌, ◌≤◌, ◌≡◌, true, ◌==◌, length, if◌then◌else◌, arith}
use rs_redbase.Prelude.Bytes.{Bytes}
use rs_redbase.Record.Layout.{bitmap_bytes, page_data_size}
use rs_redbase.Record.Layout.Slots.{span, slots-Fits}
use rs_redbase.Record.PageHeader.{RecordPageHeader}
use rs_redbase.Record.PageHeader
use rs_redbase.Record.Page.{FreeList}
use rs_redbase.Record.Page.Inserts.{Open}

module _ (slots size slot : ℕ) (payload bytes : Bytes) (o : Open slots size bytes slot)
    (long : length payload ≡ size) where
  abbrev at : ℕ
  at = 12 + bitmap_bytes slots + slot * size

  fits : at + size ≤ page_data_size
  fits = omega (arith, slots-Fits size slots o.layout, span size slots slot o.inside)

-- The free list after an insert: a page that became full leaves it.
abbrev pub after_insert : RecordPageHeader → ℕ → FreeList → FreeList
after_insert h left free_list =
    if left == 0
    then record { first_free_page = h.next_free_page; header_dirty = true }
    else free_list
