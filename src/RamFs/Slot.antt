-- ===== src/RamFs/Slot.antt =====
-- What a directory of ramfs/fs.rs finds after one slot of its vector is emptied or filled.
use jinux.Base.{
  ℕ, ◌+◌, ◌≡◌, sym, subst, ap, ◌∙◌, ◌≢◌, ◌⊎◌, inl, inr, Bool, true, false, Option, none, some,
  arith, ◌==◌, if◌then◌else◌, Bool-cases,
}
use jinux.SlotVec
use jinux.SlotVec.{SlotVec}
use jinux.SlotVec.Laws.{IsValid}
use jinux.RamFs.{Name, name_eq, DirEntry}
use jinux.RamFs.Dir.{is_dots, get_entry}
use jinux.RamFs.Find.{name_eq_self, eq_of_name_eq, IsDir, get_entry-some, get_entry-none}
use jinux.RamFs.Entries.{Changed, get_entry-ext}

-- Different names are in different slots.
apart_slot :
    (d : DirEntry) (idx j : ℕ) (name n : Name) (ino i : ℕ)
    → SlotVec.get d.children idx ≡ some (name, ino)
    → SlotVec.get d.children j ≡ some (n, i)
    → name_eq n name ≡ false
    → (idx == j) ≡ false
apart_slot d idx j name n ino i at h ne = elim (Bool-cases (idx == j)) [
  | inl e ↦
      let same : idx ≡ j = ground arith in
      let child : ◌≡◌ {A = Option (Name × ℕ)} (some (n, i)) (some (name, ino)) =
        sym h ∙ ap (SlotVec.get d.children) (sym same) ∙ at in
      let named : n ≡ name = ground arith in
      let equal : name_eq n name ≡ true =
        subst (λ m. name_eq m name ≡ true) (sym named) (name_eq_self name) in
      absurd (ground arith)
  | inr e ↦ e
]

-- One slot of the vector differs.
module _ (d d' : DirEntry) (idx : ℕ) (v : IsDir d) (valid : IsValid d'.children) where
  -- Nothing else lies in the slots of `d'` than in those of `d`, but for the slot `idx`.
  module _ (o : Option (Name × ℕ))
      (view : (j : ℕ)
        → SlotVec.get d'.children j ≡ (if idx == j then o else SlotVec.get d.children j)) where
    slot-inv :
        (j : ℕ) (a : Name × ℕ)
        → SlotVec.get d'.children j ≡ some a
        → ((idx ≡ j) × (o ≡ some a)) ⊎ ((idx == j) ≡ false × (SlotVec.get d.children j ≡ some a))
    slot-inv j a h = elim (Bool-cases (idx == j)) [
      | inl e ↦
          let at : idx ≡ j = ground arith in
          inl (
            at,
            sym (ap (λ (t : Bool). if t then o else SlotVec.get d.children j) e) ∙ sym (view j) ∙ h,
          )
      | inr e ↦ inr (
        e,
        sym (ap (λ (t : Bool). if t then o else SlotVec.get d.children j) e) ∙ sym (view j) ∙ h,
      )
    ]

    slot-ne :
        (j : ℕ) (a : Name × ℕ)
        → (idx == j) ≡ false
        → SlotVec.get d.children j ≡ some a
        → SlotVec.get d'.children j ≡ some a
    slot-ne j a e h = view j ∙ ap (λ (t : Bool). if t then o else SlotVec.get d.children j) e ∙ h

  -- The slot is emptied.
  module _
      (view : (j : ℕ)
        → SlotVec.get d'.children j ≡ (if idx == j then none else SlotVec.get d.children j)) where
    kept :
        (j : ℕ) (a : Name × ℕ)
        → SlotVec.get d'.children j ≡ some a
        → SlotVec.get d.children j ≡ some a
    kept j a h = elim (slot-inv none view j a h) [ inl (e, q) ↦ ground arith | inr (e, q) ↦ q ]

    pub clear-IsDir : IsDir d'
    clear-IsDir = record {
      valid = valid;
      unique = λ j k a b ha hb e. v.unique j k a b (kept j a ha) (kept k b hb) e;
      plain = λ j a h. v.plain j a (kept j a h);
    }

    pub clear-Changed :
        (name : Name) (ino : ℕ)
        → (d'.this ≡ d.this) × (d'.parent ≡ d.parent)
        → SlotVec.get d.children idx ≡ some (name, ino)
        → Changed d d' name none
    clear-Changed name ino heads at =
        let p = v.plain idx (name, ino) at in
        record {
          proper = clear-IsDir;
          heads = heads;
          here = get_entry-none d' name clear-IsDir p (λ j a h.
              elim (Bool-cases (name_eq a.0 name)) [
                | inl n ↦
                    let found = kept j a h in
                    let same = v.unique j idx a (name, ino) found at (eq_of_name_eq a.0 name n) in
                    let empty : SlotVec.get d'.children j ≡ none = ground (arith, view j) in
                    absurd (ground arith)
                | inr n ↦ n
              ]);
          others = λ n ne.
              get_entry-ext d d' n v clear-IsDir heads
                (λ j i h. slot-ne none view j (n, i) (apart_slot d idx j name n ino i at h ne) h)
                (λ j i h. kept j (n, i) h);
        }

  -- The child `(name, ino)` is stored, of which no other slot has the name.
  module _ (name : Name) (ino : ℕ)
      (view : (j : ℕ)
        → SlotVec.get d'.children j
          ≡ (if idx == j then some (name, ino) else SlotVec.get d.children j))
      (plain : is_dots name ≡ false)
      (only : (j : ℕ) (a : Name × ℕ)
        → (idx == j) ≡ false
        → SlotVec.get d.children j ≡ some a
        → name_eq a.0 name ≡ false) where
    clash :
        (j : ℕ) (a b : Name × ℕ)
        → (idx == j) ≡ false
        → SlotVec.get d.children j ≡ some a
        → some (name, ino) ≡ some b
        → a.0 ≡ b.0
        → {P : Type 0} → P
    clash j a b e h q same =
        let known : name ≡ b.0 = ground arith in
        let equal : a.0 ≡ name = same ∙ sym known in
        let named : name_eq a.0 name ≡ true =
          subst (λ n. name_eq n name ≡ true) (sym equal) (name_eq_self name) in
        absurd (ground (arith, only j a e h))

    pub store-IsDir : IsDir d'
    store-IsDir = record {
      valid = valid;
      unique = λ j k a b ha hb e. elim (slot-inv (some (name, ino)) view j a ha) [
        | inl (ij, qa) ↦ elim (slot-inv (some (name, ino)) view k b hb) [
          | inl (ik, qb) ↦ sym ij ∙ ik
          | inr (nk, qb) ↦ clash k b a nk qb qa (sym e)
        ]
        | inr (nj, qa) ↦ elim (slot-inv (some (name, ino)) view k b hb) [
          | inl (ik, qb) ↦ clash j a b nj qa qb e
          | inr (nk, qb) ↦ v.unique j k a b qa qb e
        ]
      ];
      plain = λ j a h. elim (slot-inv (some (name, ino)) view j a h) [
        | inl (ij, q) ↦ ground arith
        | inr (nj, q) ↦ v.plain j a q
      ];
    }

    pub store-here : get_entry d' name ≡ some (idx + 2, ino)
    store-here =
        let same : (idx == idx) ≡ true = ground arith in
        get_entry-some d' name store-IsDir plain idx ino (
          view idx
          ∙ ap (λ (t : Bool). if t then some (name, ino) else SlotVec.get d.children idx) same)

    -- Any other name is found where it was, but for the one that lay in the slot.
    pub store-others :
        (n : Name)
        → (d'.this ≡ d.this) × (d'.parent ≡ d.parent)
        → name_eq n name ≡ false
        → ((i : ℕ) → SlotVec.get d.children idx ≢ some (n, i))
        → get_entry d' n ≡ get_entry d n
    store-others n heads ne gone_from =
        get_entry-ext d d' n v store-IsDir heads
          (λ j i h. elim (Bool-cases (idx == j)) [
            | inl e ↦
                let at : idx ≡ j = ground arith in
                absurd (gone_from i (ap (SlotVec.get d.children) at ∙ h))
            | inr e ↦ slot-ne (some (name, ino)) view j (n, i) e h
          ])
          (λ j i h. elim (slot-inv (some (name, ino)) view j (n, i) h) [
            | inl (at, q) ↦
                let named : n ≡ name = ground arith in
                let equal : name_eq n name ≡ true =
                  subst (λ m. name_eq m name ≡ true) (sym named) (name_eq_self name) in
                absurd (ground arith)
            | inr (e, q) ↦ q
          ])

    -- The name that lay in the slot is no longer found.
    pub store-gone :
        (old : Name) (i : ℕ)
        → is_dots old ≡ false
        → name_eq name old ≡ false
        → SlotVec.get d.children idx ≡ some (old, i)
        → get_entry d' old ≡ none
    store-gone old i p ne at = get_entry-none d' old store-IsDir p (λ j a h.
        elim (slot-inv (some (name, ino)) view j a h) [
          | inl (here, q) ↦
              let named : name ≡ a.0 = ground arith in subst (λ n. name_eq n old ≡ false) named ne
          | inr (e, q) ↦ elim (Bool-cases (name_eq a.0 old)) [
            | inl n ↦
                let same = v.unique j idx a (old, i) q at (eq_of_name_eq a.0 old n) in
                absurd (ground arith)
            | inr n ↦ n
          ]
        ])
