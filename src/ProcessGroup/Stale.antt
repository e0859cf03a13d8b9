-- ===== src/ProcessGroup/Stale.antt =====
-- Moving a process to a group that is there, `to_specified_group` (process/process/mod.rs).
use jinux.Base.{ℕ, ◌≡◌, ◌∙◌, ap, refl, true, false, none, some, ◌==◌, arith}
use jinux.Base.Dict.{lookup, insert}
use jinux.Base.DictLaws.{lookup-insert}
use jinux.ProcessGroup.{
  remove, is_empty, Group, Tables, remove_process, leave, enter, to_specified_group,
}
use jinux.ProcessGroup.Links.{
  lookup-remove, is_member, refers, belongs, lists, IsLinked, leave-gone, leave-stays, Leaves-stays,
}

-- The group with one more process.
abbrev with_process : ℕ → Group → Group
with_process pid g = record g { processes = insert pid tt g.processes }

module _ (pid pgid : ℕ) (h : Group) (t : Tables) where
  enter-members :
      ((q b : ℕ) → is_member q b t ≡ refers q b t)
      → ((b : ℕ) → refers pid b t ≡ false)
      → lookup pgid t.groups ≡ some h
      → (q b : ℕ) → is_member q b (enter pid pgid t) ≡ refers q b (enter pid pgid t)
  enter-members members alone e q b = ground (
    arith,
    e,
    alone b,
    members q b,
    lookup-insert b pgid (with_process pid h) t.groups,
    lookup-insert q pid tt h.processes,
    lookup-insert q pid pgid t.group_of,
  )

  enter-belongs :
      lookup pgid t.groups ≡ some h
      → (b sid : ℕ) → belongs b sid (enter pid pgid t) ≡ belongs b sid t
  enter-belongs e b sid = ground (arith, e, lookup-insert b pgid (with_process pid h) t.groups)

  enter-sessions : lookup pgid t.groups ≡ some h → (enter pid pgid t).sessions ≡ t.sessions
  enter-sessions e = ground (arith, e)

  enter-ids :
      (b : ℕ)
      → lookup pgid t.groups ≡ some h
      → lookup b t.groups ≡ none
      → lookup b (enter pid pgid t).groups ≡ none
  enter-ids b e f = ground (arith, e, f, lookup-insert b pgid (with_process pid h) t.groups)

  to_specified_group-enter :
      (old : ℕ) (g : Group)
      → lookup pid t.group_of ≡ some old
      → lookup old t.groups ≡ some g
      → (old == pgid) ≡ false
      → to_specified_group pid pgid t ≡ enter pid pgid (leave pid t).0
  unfolding to_specified_group
  to_specified_group-enter old g e f n =
      rw (e, to_specified_group) (rw (f, to_specified_group) (rw (n, to_specified_group) refl))

module _ (pid old pgid : ℕ) (g h : Group) (t : Tables) where
  -- A process of a linked state that is not the last of its group moves to another group: the state is linked again,
  -- and the process is in that group.
  pub to_specified_group_lem :
      IsLinked t
      → lookup pid t.group_of ≡ some old
      → lookup old t.groups ≡ some g
      → lookup pgid t.groups ≡ some h
      → (old == pgid) ≡ false
      → is_empty (remove_process pid g).processes ≡ false
      → IsLinked (to_specified_group pid pgid t)
        × (refers pid pgid (to_specified_group pid pgid t) ≡ true)
  to_specified_group_lem linked e f k n stays =
      let t' : Tables = record t {
        groups = insert old (remove_process pid g) t.groups;
        group_of = remove pid t.group_of;
      } in
      let leaves = Leaves-stays pid old g t linked e f in
      let moved : to_specified_group pid pgid t ≡ enter pid pgid t' =
        to_specified_group-enter pid pgid h t old g e f n
        ∙ ap (λ x. enter pid pgid x.0) (leave-stays pid old g t e f stays) in
      let here : lookup pgid t'.groups ≡ some h =
        ground (arith, k, lookup-insert pgid old (remove_process pid g) t.groups) in
      rw moved (
        record {
          members =
              enter-members pid pgid h t' leaves.members (λ b. ground (arith, leaves.left pid b))
                here;
          listed = λ sid b. ground (
            arith,
            linked.listed sid b,
            leaves.belonging b sid,
            enter-belongs pid pgid h t' here b sid,
            enter-sessions pid pgid h t' here,
          );
        },
        ground (arith, here, lookup-insert pid pid pgid t'.group_of),
      )

  -- Where the last process of a group moves to another group, the old group goes from the table of groups, but its
  -- session still lists it.
  pub to_specified_group_stale :
      (sid : ℕ)
      → IsLinked t
      → lookup pid t.group_of ≡ some old
      → lookup old t.groups ≡ some g
      → g.session ≡ some sid
      → lookup pgid t.groups ≡ some h
      → (old == pgid) ≡ false
      → is_empty (remove_process pid g).processes ≡ true
      → (lookup old (to_specified_group pid pgid t).groups ≡ none)
        × (lists sid old (to_specified_group pid pgid t) ≡ true)
  to_specified_group_stale sid linked e f s k n last =
      let t' : Tables = record t {
        groups = remove old t.groups;
        group_of = remove pid t.group_of;
      } in
      let moved : to_specified_group pid pgid t ≡ enter pid pgid t' =
        to_specified_group-enter pid pgid h t old g e f n
        ∙ ap (λ x. enter pid pgid x.0) (leave-gone pid old g t e f last) in
      let here : lookup pgid t'.groups ≡ some h =
        ground (arith, k, lookup-remove pgid old t.groups) in
      rw moved (
        enter-ids pid pgid h t' old here (ground (arith, lookup-remove old old t.groups)),
        ground (arith, f, s, linked.listed sid old, enter-sessions pid pgid h t' here),
      )
