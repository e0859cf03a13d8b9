-- ===== src/RwLock/Moves.antt =====
-- Every atomic operation of rwlock.rs keeps the invariant.
use Prim.Native.Nat.{bit_and, bit_or}
use jinux.Base.{
  ℕ, ◌+◌, ◌^◌, ◌≤◌, ◌<◌, ◌≡◌, ◌⊎◌, List, length, length-set, set, get_elem?, some, arith, ap, ◌∙◌,
  ◌==◌, if◌then◌else◌,
}
use jinux.Base.Bits.{not_u64}
use jinux.Base.Totals.{total, total-set}
use jinux.RwLock.{
  Thread, idle, read_failed, reading, writing, upreading, upgrading, Outcome, InnerGuard, try_read,
  try_read_irq_disabled, undo_read, try_write, try_write_irq_disabled, try_upread,
  try_upread_irq_disabled, undo_upread, drop_read, drop_write, drop_upread, upgrade, try_upgrade,
  finish_upgrade, admits_reader, upread_outcome, reader, writer, upgradeable_reader, being_upgraded,
  fetch_add,
}
use jinux.RwLock.System.{
  System, Move, Step, step, read, read_irq, unread, write, write_irq, upread, upread_irq, unupread,
  end_read, end_write, end_upread, start_upgrade, retry_upgrade, bare_upgrade, end_upgrade,
}
use jinux.RwLock.Word.{
  word, admits_reader-word, old_bits-word, set_upgradeable-word, set_being_upgraded-word,
  clear_writer-word,
}
use jinux.RwLock.Invariant.{
  in_writer, in_upgradeable, in_upgrade, in_count, is_reading, is_upreading, Inv, count-lt,
  upgrade-le, upreading-le, reading-le,
}

-- What the sums before and after say when one thread goes from `t` to `t'`.
record Change (t t' : Thread) (w u b r rd up w' u' b' r' rd' up' : ℕ) : Type 0 where
  cw : w' + in_writer t ≡ w + in_writer t'
  cu : u' + in_upgradeable t ≡ u + in_upgradeable t'
  cb : b' + in_upgrade t ≡ b + in_upgrade t'
  cr : r' + in_count t ≡ r + in_count t'
  crd : rd' + is_reading t ≡ rd + is_reading t'
  cup : up' + is_upreading t ≡ up + is_upreading t'
  low : r < 2 ^ 60
  low' : r' < 2 ^ 60
  b_up : b ≤ up
  up_u : up ≤ u
  rd_r : rd ≤ r
  b_up' : b' ≤ up'
  up_u' : up' ≤ u'

-- The invariant as a statement about the word and the sums.
record Fits (lock w u b r rd up : ℕ) : Type 0 where
  fields : lock ≡ word w u b r
  one_writer : w ≤ 1
  one_upgradeable : u ≤ 1
  exclusive : (w ≡ 0) ⊎ (rd + up ≡ 0)

-- The word after an operation fits the sums after it.
abbrev Keeps : ℕ → Thread → Outcome → Type 0
Keeps lock t out =
    (w u b r rd up w' u' b' r' rd' up' : ℕ)
    → Fits lock w u b r rd up
    → Change t out.1 w u b r rd up w' u' b' r' rd' up'
    → Fits out.0 w' u' b' r' rd' up'

read-Keeps :
    (g : InnerGuard) (lock : ℕ)
    → Keeps lock idle (fetch_add lock reader, if admits_reader lock then reading g else read_failed)
read-Keeps g lock w u b r rd up w' u' b' r' rd' up' f c =
    let admit =
      ap admits_reader f.fields
      ∙ admits_reader-word w u b r f.one_writer f.one_upgradeable
          (omega (arith, f.one_upgradeable, c.b_up, c.up_u)) c.low in
    ground (arith, admit)

write-Keeps :
    (g : InnerGuard) (lock : ℕ)
    → Keeps lock idle (if lock == 0 then (writer, writing g) else (lock, idle))
write-Keeps g lock w u b r rd up w' u' b' r' rd' up' f c = ground arith

upread-Keeps :
    (g : InnerGuard) (lock : ℕ)
    → Keeps lock idle (
      bit_or lock upgradeable_reader,
      upread_outcome g (bit_and lock (bit_or writer upgradeable_reader)),
    )
upread-Keeps g lock w u b r rd up w' u' b' r' rd' up' f c =
    let hb : b ≤ 1 = omega (arith, f.one_upgradeable, c.b_up, c.up_u) in
    let old =
      ap (λ (l : ℕ). bit_and l (bit_or writer upgradeable_reader)) f.fields
      ∙ old_bits-word w u b r f.one_writer f.one_upgradeable hb c.low in
    let new =
      ap (λ (l : ℕ). bit_or l upgradeable_reader) f.fields
      ∙ set_upgradeable-word w u b r f.one_writer f.one_upgradeable hb c.low in
    ground (arith, old, new)

end_write-Keeps :
    (g : InnerGuard) (lock : ℕ) → Keeps lock (writing g) (bit_and lock (not_u64 writer), idle)
end_write-Keeps g lock w u b r rd up w' u' b' r' rd' up' f c =
    let new =
      ap (λ (l : ℕ). bit_and l (not_u64 writer)) f.fields
      ∙ clear_writer-word w u b r f.one_writer f.one_upgradeable
          (omega (arith, f.one_upgradeable, c.b_up, c.up_u)) c.low in
    ground (arith, new)

upgrade-Keeps :
    (g : InnerGuard) (lock : ℕ) → Keeps lock (upreading g) (bit_or lock being_upgraded, upgrading g)
upgrade-Keeps g lock w u b r rd up w' u' b' r' rd' up' f c =
    let new =
      ap (λ (l : ℕ). bit_or l being_upgraded) f.fields
      ∙ set_being_upgraded-word w u b r f.one_writer f.one_upgradeable
          (omega (arith, f.one_upgradeable, c.b_up, c.up_u)) c.low in
    ground (arith, new)

Move-Keeps : {lock : ℕ} {t : Thread} {out : Outcome} → Move lock t out → Keeps lock t out
unfolding try_read try_read_irq_disabled undo_read try_write try_write_irq_disabled try_upread
    try_upread_irq_disabled undo_upread drop_read drop_write drop_upread upgrade try_upgrade
    finish_upgrade
Move-Keeps {lock} read = read-Keeps _ lock
Move-Keeps {lock} read_irq = read-Keeps _ lock
Move-Keeps {lock} write = write-Keeps _ lock
Move-Keeps {lock} write_irq = write-Keeps _ lock
Move-Keeps {lock} upread = upread-Keeps _ lock
Move-Keeps {lock} upread_irq = upread-Keeps _ lock
Move-Keeps {lock} (end_write g) = end_write-Keeps g lock
Move-Keeps {lock} (start_upgrade g) = upgrade-Keeps g lock
Move-Keeps {lock} unread = λ w u b r rd up w' u' b' r' rd' up' f c. ground arith
Move-Keeps {lock} unupread = λ w u b r rd up w' u' b' r' rd' up' f c. ground arith
Move-Keeps {lock} (end_read g) = λ w u b r rd up w' u' b' r' rd' up' f c. ground arith
Move-Keeps {lock} (end_upread g) = λ w u b r rd up w' u' b' r' rd' up' f c. ground arith
Move-Keeps {lock} (retry_upgrade g) = λ w u b r rd up w' u' b' r' rd' up' f c. ground arith
Move-Keeps {lock} (bare_upgrade g) = λ w u b r rd up w' u' b' r' rd' up' f c. ground arith
Move-Keeps {lock} (end_upgrade g) = λ w u b r rd up w' u' b' r' rd' up' f c. ground arith

sums-Change :
    (ts : List Thread) (i : ℕ) (t t' : Thread)
    → length ts < 2 ^ 60
    → get_elem? ts i ≡ some t
    → Change t t'
        (total in_writer ts)
        (total in_upgradeable ts)
        (total in_upgrade ts)
        (total in_count ts)
        (total is_reading ts)
        (total is_upreading ts)
        (total in_writer (set ts i t'))
        (total in_upgradeable (set ts i t'))
        (total in_upgrade (set ts i t'))
        (total in_count (set ts i t'))
        (total is_reading (set ts i t'))
        (total is_upreading (set ts i t'))
sums-Change ts i t t' few at = record {
  cw = total-set in_writer ts i t t' at;
  cu = total-set in_upgradeable ts i t t' at;
  cb = total-set in_upgrade ts i t t' at;
  cr = total-set in_count ts i t t' at;
  crd = total-set is_reading ts i t t' at;
  cup = total-set is_upreading ts i t t' at;
  low = count-lt ts few;
  low' = count-lt (set ts i t') (omega (arith, length-set ts i t'));
  b_up = upgrade-le ts;
  up_u = upreading-le ts;
  rd_r = reading-le ts;
  b_up' = upgrade-le (set ts i t');
  up_u' = upreading-le (set ts i t');
}

-- Every step of any thread keeps the invariant.
pub Step-Inv : {s s' : System} → Step s s' → Inv s → Inv s'
Step-Inv {s} (step i {t} {out} at move) v =
    let f =
      Move-Keeps move _ _ _ _ _ _ _ _ _ _ _ _
        (record {
          fields = v.fields;
          one_writer = v.one_writer;
          one_upgradeable = v.one_upgradeable;
          exclusive = v.exclusive;
        })
        (sums-Change s.threads i t out.1 v.few at) in
    record {
      few = omega (arith, v.few, length-set s.threads i out.1);
      fields = f.fields;
      one_writer = f.one_writer;
      one_upgradeable = f.one_upgradeable;
      exclusive = f.exclusive;
    }
