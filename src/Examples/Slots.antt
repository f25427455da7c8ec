-- ===== src/Examples/Slots.antt =====
-- One page of 16-byte records, with one record in it, and a second inserted and updated.
use rs_redbase.Prelude.{
  ℕ, ◌≡◌, ◌≢◌, refl, [], ◌∷◌, ◌++◌, arith, ok, Returns, length, replicate, false,
}
use rs_redbase.Prelude.Int.{pos, negsuc}
use rs_redbase.Prelude.Bytes.{
  Bytes, slice, copy_into, u32_to_le_bytes, u32_from_le_bytes, i32_to_le_bytes, i32_from_le_bytes,
}
use rs_redbase.Record.Types.{Rid}
use rs_redbase.Record.Layout.{page_data_size, fit_slots, compute_slots_per_page, record_range}
use rs_redbase.Record.Bitmap.{
  test_bit, with_bit, without_bit, slot_is_free, set_slot_free, find_free_from,
  find_first_free_slot,
}
use rs_redbase.Record.PageHeader.{read_page_header}
use rs_redbase.Record.PageHeader
use rs_redbase.Record.Page.{
  within, ensure_slot_used, FreeList, initialize_page, get_slot, update_slot, take_slot, free_slot,
}
use rs_redbase.Record.Page.Updates.{update_slot-get_slot}
use rs_redbase.Record.Page.Inserts.{Open, Inserted}
use rs_redbase.Record.Page.Deletes.{Used, Deleted, after_delete}
use rs_redbase.Record.Page.Deleted.{free_slot-Deleted}
use rs_redbase.Record.Page.Initialized.{Initialized, initialize_page-Initialized}

-- All that a run of this module computes through.
program : Unit {0}
unfolding slice copy_into u32_to_le_bytes u32_from_le_bytes i32_to_le_bytes i32_from_le_bytes
    fit_slots compute_slots_per_page record_range test_bit with_bit without_bit slot_is_free
    set_slot_free find_free_from find_first_free_slot read_page_header PageHeader.encode
    PageHeader.decode PageHeader.validate within ensure_slot_used get_slot update_slot take_slot
program = tt

abbrev payload : ℕ → Bytes
payload b = replicate 16 b

-- 253 slots, 252 of them free; slot 0 holds sixteen sevens.
abbrev page : Bytes
page =
    (255 ∷ 255 ∷ 255 ∷ 255 ∷ 253 ∷ 0 ∷ 0 ∷ 0 ∷ 252 ∷ 0 ∷ 0 ∷ 0 ∷ [])
    ++ ((254 ∷ replicate 31 255) ++ (payload 7 ++ replicate 4032 0))

page_wide : length page ≡ page_data_size
page_wide = refl

first_reads : get_slot 253 16 (record { page_id = 1; slot_id = 0 }) page ≡ ok (payload 7)
unfolding program
first_reads = refl

update_slot-get_slot_example :
    Returns (update_slot 253 16 (record { page_id = 1; slot_id = 0 }) (payload 9) page) (λ bytes'.
      (length bytes' ≡ page_data_size)
      × (get_slot 253 16 (record { page_id = 1; slot_id = 0 }) bytes' ≡ ok (payload 9))
      × ((other : Rid)
          → other.slot_id ≢ 0
          → get_slot 253 16 other bytes' ≡ get_slot 253 16 other page))
update_slot-get_slot_example =
    update_slot-get_slot 253 16 (record { page_id = 1; slot_id = 0 }) (payload 9) page (payload 7)
      page_wide refl first_reads

abbrev page_open : Open 253 16 page 1
unfolding program
page_open = record {
  wide = refl;
  layout = refl;
  h = record { next_free_page = negsuc 0; num_slots = 253; num_free_slots = 252 };
  header = refl;
  valid = refl;
  stored = (omega arith, omega arith, omega arith);
  bitmap = 254 ∷ replicate 31 255;
  long = refl;
  read = refl;
  found = refl;
  inside = omega arith;
  left = 251;
  counted = refl;
}

abbrev free_list : FreeList
free_list = record { first_free_page = pos 1; header_dirty = false }

abbrev page_used : Used 253 16 page 0
unfolding program
page_used = record {
  wide = refl;
  layout = refl;
  h = record { next_free_page = negsuc 0; num_slots = 253; num_free_slots = 252 };
  header = refl;
  count = refl;
  valid = refl;
  stored = (omega arith, omega arith, omega arith);
  bitmap = 254 ∷ replicate 31 255;
  long = refl;
  read = refl;
  inside = omega arith;
  taken = refl;
  counted = omega arith;
}

free_slot-Deleted_example :
    Returns
      (free_slot 253 16 free_list (record { page_id = 1; slot_id = 0 }) page)
      (λ (bytes', free_list').
        Deleted 253 16 0 page_used.h free_list page bytes'
        × (free_list' ≡ after_delete page_used.h free_list (record { page_id = 1; slot_id = 0 })))
free_slot-Deleted_example =
    free_slot-Deleted 253 16 (record { page_id = 1; slot_id = 0 }) page free_list page_used
      (omega arith, refl)

initialize_page-Initialized_example :
    Returns (initialize_page (replicate 4092 7) (PageHeader.new 253) 253 16) (Initialized 253 16)
initialize_page-Initialized_example =
    initialize_page-Initialized 253 16 (replicate 4092 7) (omega arith) page_open.layout refl
