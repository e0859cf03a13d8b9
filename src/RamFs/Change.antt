-- ===== src/RamFs/Change.antt =====
-- What `append_entry`, `remove_entry` and `substitute_entry` of ramfs/fs.rs do to what a directory finds.
use jinux.Base.{
  ℕ, ◌+◌, ◌-◌, ◌≡◌, refl, sym, subst, ap, ◌∙◌, inl, inr, true, false, Option, none, some, arith,
  ◌==◌, ltb, Bool-cases,
}
use jinux.SlotVec
use jinux.SlotVec.{SlotVec}
use jinux.SlotVec.Laws.{put_lem, remove_lem, put_at_lem}
use jinux.RamFs.{Name, name_eq, cstr256, DirEntry}
use jinux.RamFs.Dir.{is_dots, get_entry, append_entry, remove_entry, substitute_entry}
use jinux.RamFs.Find.{name_eq_self, eq_of_name_eq, IsDir, get_entry-inv}
use jinux.RamFs.Entries.{Changed, Renamed, absent}
use jinux.RamFs.Slot.{clear-Changed, store-IsDir, store-here, store-others, store-gone}

module _ (d : DirEntry) (name : Name) (v : IsDir d) (p : is_dots name ≡ false) where
  pub append_entry_lem :
      (ino : ℕ)
      → cstr256 name ≡ name
      → get_entry d name ≡ none
      → (d' : DirEntry) × (idx : ℕ) × (append_entry d name ino ≡ some d')
        × Changed d d' name (some (idx, ino))
  unfolding append_entry
  append_entry_lem ino short free =
      let (children, idx, r) = put_lem d.children (name, ino) v.valid in
      let d' : DirEntry = record d { children = children } in
      let run : SlotVec.put d.children (cstr256 name, ino) ≡ some (children, idx) =
        ap (λ (n : Name). SlotVec.put d.children (n, ino)) short ∙ r.result in
      let only : (j : ℕ) (a : Name × ℕ)
          → (idx == j) ≡ false
          → SlotVec.get d.children j ≡ some a
          → name_eq a.0 name ≡ false =
        λ j a e h. absent d name v p free j a h in
      (
        d',
        idx + 2,
        rw (run, append_entry) refl,
        record {
          proper = store-IsDir d d' idx v r.valid name ino r.view p only;
          heads = (refl, refl);
          here = store-here d d' idx v r.valid name ino r.view p only;
          others = λ n ne.
              store-others d d' idx v r.valid name ino r.view p only n (refl, refl) ne
                (λ i h. ground (arith, r.was_free));
        },
      )

  pub remove_entry_lem :
      (idx ino : ℕ)
      → get_entry d name ≡ some (idx, ino)
      → (d' : DirEntry) × (remove_entry d idx ≡ some d') × Changed d d' name none
  unfolding remove_entry
  remove_entry_lem idx ino found =
      let (j, at, h) = get_entry-inv d name v p idx ino found in
      let out = SlotVec.remove d.children j in
      let r = remove_lem d.children j v.valid in
      let d' : DirEntry = record d { children = out.0 } in
      let high : ltb idx 2 ≡ false = ground arith in
      let slot : idx - 2 ≡ j = omega arith in
      (d', rw (high, slot) refl, clear-Changed d d' j v r.valid r.view name ino (refl, refl) h)

  names_apart :
      (new_name : Name) (e : ℕ × ℕ)
      → get_entry d name ≡ some e
      → get_entry d new_name ≡ none
      → name_eq new_name name ≡ false
  names_apart new_name e found free = elim (Bool-cases (name_eq new_name name)) [
    | inl n ↦
        let same = eq_of_name_eq new_name name n in
        let both : get_entry d name ≡ none = ap (get_entry d) (sym same) ∙ free in
        absurd (ground arith)
    | inr n ↦ n
  ]

  not_there :
      (k ino : ℕ) (n : Name) (i : ℕ)
      → SlotVec.get d.children k ≡ some (name, ino)
      → SlotVec.get d.children k ≡ some (n, i)
      → name_eq n name ≡ false
      → {P : Type 0} → P
  not_there k ino n i h g ne =
      let child : ◌≡◌ {A = Option (Name × ℕ)} (some (name, ino)) (some (n, i)) = sym h ∙ g in
      let named : name ≡ n = ground arith in
      let equal : name_eq n name ≡ true =
        subst (λ m. name_eq m name ≡ true) named (name_eq_self name) in
      absurd (ground arith)

  -- The entry at `idx` gets the name `new_name`, which no other entry has.
  pub substitute_entry_lem :
      (idx ino : ℕ) (new_name : Name)
      → get_entry d name ≡ some (idx, ino)
      → is_dots new_name ≡ false
      → cstr256 new_name ≡ new_name
      → get_entry d new_name ≡ none
      → (d' : DirEntry) × (substitute_entry d idx new_name ino ≡ some d')
        × Renamed d d' name new_name idx ino
  unfolding substitute_entry
  substitute_entry_lem idx ino new_name found plain short free =
      let (k, at, h) = get_entry-inv d name v p idx ino found in
      let out = SlotVec.put_at d.children k (new_name, ino) in
      let r = put_at_lem d.children k (new_name, ino) v.valid in
      let d' : DirEntry = record d { children = out.0 } in
      let high : ltb idx 2 ≡ false = ground arith in
      let slot : idx - 2 ≡ k = omega arith in
      let only : (j : ℕ) (a : Name × ℕ)
          → (k == j) ≡ false
          → SlotVec.get d.children j ≡ some a
          → name_eq a.0 new_name ≡ false =
        λ j a e g. absent d new_name v plain free j a g in
      let other : name_eq new_name name ≡ false = names_apart new_name (idx, ino) found free in
      (
        d',
        rw (high, slot, short) refl,
        record {
          proper = store-IsDir d d' k v r.valid new_name ino r.view plain only;
          heads = (refl, refl);
          here =
              store-here d d' k v r.valid new_name ino r.view plain only
              ∙ ap (λ i. some (i, ino)) (sym at);
          lost = store-gone d d' k v r.valid new_name ino r.view plain only name ino p other h;
          others = λ n ne ne'.
              store-others d d' k v r.valid new_name ino r.view plain only n (refl, refl) ne
                (λ i g. not_there k ino n i h g ne');
        },
      )
