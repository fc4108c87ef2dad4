-- ===== src/Registry/Sharing.antt =====
-- What the ways to share of Create come to.
use apt_cacher_ng.Base.{
  ℕ, ◌+◌, ◌≡◌, true, false, none, some, arith, Bytes, null, equal_iff, Option-cases, inl, inr, ◌<◌,
  ◌⊎◌, Bool-cases, not, ◌&&◌, refl, Option,
}
use apt_cacher_ng.FileItem.{SpecialPurposeAttr, abandoned}
use apt_cacher_ng.Registry.{
  Registry, Config, always_try_sharing, force_move_out_of_the_way, Moved, makes_way, lookup, create,
  create_known, normalize_path, reg_new, share, displace, abandon_replace, linked_no_entry,
  replaced_path, link_error, linked_unlinked, linked_unlink_error, link_no_entry,
}

-- With ALWAYS_TRY_SHARING there is always a holder, and the path leads to the held item, which is
-- the one that the path led to before, with one more user, or else a new one.
pub create-always_try_sharing :
    (cfg : Config) (now : ℕ) (moved : Moved) (path : Bytes) (attr : SpecialPurposeAttr)
    (r : Registry)
    → let s = create cfg now moved path always_try_sharing attr r in
      (id : ℕ) × (s.1 ≡ some id)
      × (lookup (normalize_path cfg path) s.0.map_items ≡ some id)
      × (((lookup (normalize_path cfg path) r.map_items ≡ some id)
            × ((s.0.heap id).usercount ≡ (r.heap id).usercount + 1))
          ⊎ ((lookup (normalize_path cfg path) r.map_items ≡ none) × (id ≡ r.next_id)))
unfolding create create_known reg_new share lookup
create-always_try_sharing cfg now moved path attr r =
    elim (Option-cases (lookup (normalize_path cfg path) r.map_items)) [
      | inl free ↦ (
        r.next_id,
        ground arith,
        ground (arith, equal_iff (normalize_path cfg path) (normalize_path cfg path)),
        inr (free, refl),
      )
      | inr (id, there) ↦ (id, ground arith, ground arith, inl (there, ground arith))
    ]

-- The path leads to a new item with one user, the next number, and the old one is abandoned under a
-- new name, out of the map, and with the users it had.
abbrev pub Replaced : Config → ℕ → Bytes → ℕ → Registry → Registry × Option ℕ → Type 0
Replaced cfg now path old r s =
    (s.1 ≡ some r.next_id)
    × (lookup (normalize_path cfg path) s.0.map_items ≡ some r.next_id)
    × ((s.0.heap r.next_id).usercount ≡ 1)
    × (s.0.glob_ref old ≡ none)
    × ((s.0.heap old).destroy ≡ abandoned)
    × ((s.0.heap old).path_rel ≡ replaced_path cfg now (r.heap old).path_rel)
    × ((s.0.heap old).usercount ≡ (r.heap old).usercount)

module _ (cfg : Config) (now : ℕ) (moved : Moved) (path : Bytes) (attr : SpecialPurposeAttr)
    (r : Registry) (old : ℕ) (there : lookup (normalize_path cfg path) r.map_items ≡ some old)
    (made : old < r.next_id) (free : (r.heap old).create_item_must_displace ≡ false) where
  abbrev forced : Registry × Option ℕ
  forced = create cfg now moved path force_move_out_of_the_way attr r

  stays : (not (null (r.heap old).path_rel) && makes_way moved) ≡ false → forced ≡ (r, none)
  unfolding create create_known displace
  stays blocked = ground arith

  goes :
      (not (null (r.heap old).path_rel) && makes_way moved) ≡ true
      → Replaced cfg now path old r forced
  unfolding create create_known displace abandon_replace reg_new lookup
  goes way = (
    ground arith,
    ground (arith, equal_iff (normalize_path cfg path) (normalize_path cfg path)),
    ground arith,
    ground arith,
    ground arith,
    ground arith,
    ground arith,
  )

-- FORCE_MOVE_OUT_OF_THE_WAY on a path that leads to an item of the registry for which
-- m_bCreateItemMustDisplace is not set. If the item has no path, or its file was linked to a new name
-- but is found to be gone, or could not be linked though it is there, nothing changes and the caller
-- gets no holder. If it was linked and unlinked, or unlinking failed for another reason, or there was
-- no file, the caller holds a new item, to which the path now leads, and the old one is abandoned
-- under its new name, out of the map, and with the users it had.
pub create-force_move :
    (cfg : Config) (now : ℕ) (moved : Moved) (path : Bytes) (attr : SpecialPurposeAttr)
    (r : Registry) (old : ℕ)
    → lookup (normalize_path cfg path) r.map_items ≡ some old
    → old < r.next_id
    → (r.heap old).create_item_must_displace ≡ false
    → let s = create cfg now moved path force_move_out_of_the_way attr r in
      (((null (r.heap old).path_rel ≡ true) ⊎ (moved ≡ linked_no_entry) ⊎ (moved ≡ link_error))
        × (s ≡ (r, none)))
      ⊎ ((null (r.heap old).path_rel ≡ false)
          × ((moved ≡ linked_unlinked) ⊎ (moved ≡ linked_unlink_error) ⊎ (moved ≡ link_no_entry))
          × Replaced cfg now path old r s)
create-force_move cfg now moved path attr r old there made free =
    elim (Bool-cases (null (r.heap old).path_rel)) [
      | inl nameless ↦
          inl (inl nameless, stays cfg now moved path attr r old there made free (rw nameless))
      | inr named ↦ by_result moved named
    ]
  where
    by_result :
        (m : Moved)
        → null (r.heap old).path_rel ≡ false
        → (((null (r.heap old).path_rel ≡ true) ⊎ (m ≡ linked_no_entry) ⊎ (m ≡ link_error))
            × (create cfg now m path force_move_out_of_the_way attr r ≡ (r, none)))
          ⊎ ((null (r.heap old).path_rel ≡ false)
              × ((m ≡ linked_unlinked) ⊎ (m ≡ linked_unlink_error) ⊎ (m ≡ link_no_entry))
              × Replaced cfg now path old r
                  (create cfg now m path force_move_out_of_the_way attr r))
    by_result linked_unlinked named =
        inr
          (named, inl refl, goes cfg now linked_unlinked path attr r old there made free (rw named))
    by_result linked_unlink_error named = inr (
      named,
      inr (inl refl),
      goes cfg now linked_unlink_error path attr r old there made free (rw named),
    )
    by_result link_no_entry named = inr (
      named,
      inr (inr refl),
      goes cfg now link_no_entry path attr r old there made free (rw named),
    )
    by_result linked_no_entry named =
        inl
          (inr (inl refl), stays cfg now linked_no_entry path attr r old there made free (rw named))
    by_result link_error named =
        inl (inr (inr refl), stays cfg now link_error path attr r old there made free (rw named))
