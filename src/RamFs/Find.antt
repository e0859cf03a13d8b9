-- ===== src/RamFs/Find.antt =====
-- How the searches of a directory of ramfs/fs.rs relate to its slots.
use jinux.Base.{
  ℕ, ◌+◌, ◌≡◌, refl, sym, ap, ◌∙◌, inl, inr, true, false, none, some, [], ◌∷◌, map, arith, ◌==◌,
  is_some, Bool-cases, Option-cases,
}
use jinux.Base.Dict.{Dict, Above, IsSorted}
use jinux.Base.Dict
use jinux.Base.DictLaws.{lookup-Above}
use jinux.SlotVec
use jinux.SlotVec.{SlotVec}
use jinux.SlotVec.Laws.{IsValid}
use jinux.SlotVec.Listing.{idxes_and_items_lem, iter_lem}
use jinux.RamFs.{Name, name_eq, dot, dotdot, DirEntry}
use jinux.RamFs.Dir.{find, any_named, is_dots, contains_entry, get_entry}

pub name_eq_self : (n : Name) → name_eq n n ≡ true
name_eq_self [] = refl
name_eq_self (x ∷ xs) = ground (arith, name_eq_self xs)

pub eq_of_name_eq : (m n : Name) → name_eq m n ≡ true → m ≡ n
eq_of_name_eq [] [] h = refl
eq_of_name_eq [] (y ∷ ys) h = ground arith
eq_of_name_eq (x ∷ xs) [] h = ground arith
eq_of_name_eq (x ∷ xs) (y ∷ ys) h =
    let head : x ≡ y = ground arith in
    let tail = eq_of_name_eq xs ys (ground arith) in rw (head, tail) refl

abbrev Child : Type 0
Child = Name × ℕ

-- What lies behind the first entry has another key.
lookup_behind :
    (j k : ℕ) (c b : Child) (rest : Dict Child)
    → Above k rest
    → Dict.lookup j rest ≡ some b
    → Dict.lookup j ((k, c) ∷ rest) ≡ some b
lookup_behind j k c b rest s h = ground (arith, lookup-Above j k rest, h)

-- What `find` finds is an entry with the name.
find-some :
    (name : Name) (xs : Dict Child) (j : ℕ) (c : Child)
    → IsSorted xs
    → find name xs ≡ some (j, c)
    → (Dict.lookup j xs ≡ some c) × (c.0 ≡ name)
find-some name [] j c s h = ground arith
find-some name ((k, (child, ino)) ∷ rest) j c s h = elim (Bool-cases (name_eq child name)) [
  | inl e ↦ ground (arith, eq_of_name_eq child name e)
  | inr e ↦
      let found = find-some name rest j c s.1 (ground arith) in
      (lookup_behind j k (child, ino) c rest s.0 found.0, found.1)
]

module _ (name : Name) where
  other_key :
      (j k : ℕ) (child : Name) (ino : ℕ) (c : Child) (rest : Dict Child)
      → Dict.lookup j ((k, (child, ino)) ∷ rest) ≡ some c
      → c.0 ≡ name
      → name_eq child name ≡ false
      → (j == k) ≡ false
  other_key j k child ino c rest h e other = elim (Bool-cases (j == k)) [
    | inl q ↦
        let first : c ≡ (child, ino) = ground arith in
        let named : child ≡ name = sym (ap (λ (b : Child). b.0) first) ∙ e in
        let same : name_eq child name ≡ true = rw named (name_eq_self name) in ground arith
    | inr q ↦ q
  ]

  -- An entry with a name that no other one has is found.
  find_unique :
      (xs : Dict Child) (j : ℕ) (c : Child)
      → IsSorted xs
      → Dict.lookup j xs ≡ some c
      → c.0 ≡ name
      → ((k : ℕ) (b : Child) → Dict.lookup k xs ≡ some b → b.0 ≡ name → k ≡ j)
      → find name xs ≡ some (j, c)
  find_unique [] j c s h e u = ground arith
  find_unique ((k, (child, ino)) ∷ rest) j c s h e u = elim (Bool-cases (name_eq child name)) [
    | inl named ↦
        let here : Dict.lookup k ((k, (child, ino)) ∷ rest) ≡ some (child, ino) = ground arith in
        let same = u k (child, ino) here (eq_of_name_eq child name named) in ground (arith, same)
    | inr other ↦
        let apart : (j == k) ≡ false = other_key j k child ino c rest h e other in
        let behind : Dict.lookup j rest ≡ some c = ground arith in
        rw other (
          find_unique rest j c s.1 behind e
            (λ i b l n. u i b (lookup_behind i k (child, ino) b rest s.0 l) n))
  ]

  find-none :
      (xs : Dict Child)
      → IsSorted xs
      → ((k : ℕ) (b : Child) → Dict.lookup k xs ≡ some b → name_eq b.0 name ≡ false)
      → find name xs ≡ none
  find-none [] s u = refl
  find-none ((k, (child, ino)) ∷ rest) s u =
      let here : Dict.lookup k ((k, (child, ino)) ∷ rest) ≡ some (child, ino) = ground arith in
      let other = u k (child, ino) here in
      rw other (find-none rest s.1 (λ i b l. u i b (lookup_behind i k (child, ino) b rest s.0 l)))

any_named-find :
    (name : Name) (xs : Dict Child) → any_named name (map (λ p. p.1) xs) ≡ is_some (find name xs)
any_named-find name [] = refl
any_named-find name ((k, (child, ino)) ∷ rest) = ground (arith, any_named-find name rest)

-- A directory: its vector is valid, its children have different names, and none is called "." or "..".
pub record IsDir (d : DirEntry) : Type 0 where
  pub valid : IsValid d.children
  pub unique :
      (j k : ℕ) (a b : Name × ℕ)
      → SlotVec.get d.children j ≡ some a
      → SlotVec.get d.children k ≡ some b
      → a.0 ≡ b.0
      → j ≡ k
  pub plain : (j : ℕ) (a : Name × ℕ) → SlotVec.get d.children j ≡ some a → is_dots a.0 ≡ false

module _ (d : DirEntry) (name : Name) (v : IsDir d) (p : is_dots name ≡ false) where
  not_dot : name_eq name dot ≡ false
  not_dot = ground arith

  not_dotdot : name_eq name dotdot ≡ false
  not_dotdot = ground arith

  -- `get_entry` of a plain name is two more than the slot that holds the child.
  pub get_entry-some :
      (j ino : ℕ)
      → SlotVec.get d.children j ≡ some (name, ino)
      → get_entry d name ≡ some (j + 2, ino)
  unfolding get_entry
  get_entry-some j ino h =
      let (sorted, view) = idxes_and_items_lem d.children in
      let found =
        find_unique name (SlotVec.idxes_and_items d.children) j (name, ino) sorted (view j ∙ h) refl
          (λ k b l n. v.unique k j b (name, ino) (sym (view k) ∙ l) h n) in
      rw (not_dot, not_dotdot, found) refl

  pub get_entry-none :
      ((j : ℕ) (a : Name × ℕ) → SlotVec.get d.children j ≡ some a → name_eq a.0 name ≡ false)
      → get_entry d name ≡ none
  unfolding get_entry
  get_entry-none h =
      let (sorted, view) = idxes_and_items_lem d.children in
      let missing =
        find-none name (SlotVec.idxes_and_items d.children) sorted
          (λ k b l. h k b (sym (view k) ∙ l)) in
      rw (not_dot, not_dotdot, missing) refl

  pub get_entry-inv :
      (idx ino : ℕ)
      → get_entry d name ≡ some (idx, ino)
      → (j : ℕ) × (idx ≡ j + 2) × (SlotVec.get d.children j ≡ some (name, ino))
  unfolding get_entry
  get_entry-inv idx ino h =
      let (sorted, view) = idxes_and_items_lem d.children in
      elim (Option-cases (find name (SlotVec.idxes_and_items d.children))) [
        | inl e ↦ ground (arith, not_dot, not_dotdot)
        | inr ((k, c), e) ↦
            let found = find-some name (SlotVec.idxes_and_items d.children) k c sorted e in
            let place : idx ≡ k + 2 = ground (arith, not_dot, not_dotdot) in
            let child : c ≡ (name, ino) = ground (arith, not_dot, not_dotdot, found.1) in
            (k, place, sym (view k) ∙ found.0 ∙ ap some child)
      ]

-- `contains_entry` and `get_entry` agree.
pub contains_entry-get_entry :
    (d : DirEntry) (name : Name) → IsDir d → contains_entry d name ≡ is_some (get_entry d name)
unfolding contains_entry get_entry
contains_entry-get_entry d name v =
    let same =
      ap (any_named name) (iter_lem d.children v.valid).0
      ∙ any_named-find name (SlotVec.idxes_and_items d.children) in
    ground (arith, same)
