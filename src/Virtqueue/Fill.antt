-- ===== src/Virtqueue/Fill.antt =====
-- What the loops of `add_buf` of queue.rs write into the descriptors that they take.

use jinux.Base.{
  ℕ, ◌%◌, ◌^◌, ◌<◌, ◌≡◌, refl, sym, ap, ◌∙◌, Bool, true, false, Option, some, List, [], ◌∷◌, map,
  arith, ◌==◌, ltb, if◌then◌else◌, length,
}
use jinux.Virtqueue.{Table, Descriptor, Buffer, Filling, take_descs, set_buf, write_at}
use jinux.Virtqueue.Walk.{
  walk, walk_end, has, Distinct, Below, SameNext, walk-SameNext, walk_end-SameNext,
}

-- What the device reads in a descriptor besides `next`: the address, the length and the flags
abbrev pub Request : Type 0
Request = ℕ × ℕ × ℕ

abbrev pub request : Table → ℕ → Request
request d i = ((d i).addr, (d i).len, (d i).flags)

-- The request for a buffer at the physical address that `pa` says
abbrev pub posted : (ℕ → ℕ) → ℕ → Buffer → Request
posted pa flags buf = (pa buf.va, buf.size % 2 ^ 32, flags)

-- The addresses of the buffers have a translation.
abbrev pub Mapped : (ℕ → Option ℕ) → (ℕ → ℕ) → List Buffer → Type 0
Mapped paddr pa [] = Unit
Mapped paddr pa (buf ∷ bufs) = (paddr buf.va ≡ some (pa buf.va)) × Mapped paddr pa bufs

abbrev pub last_of : ℕ → List ℕ → ℕ
last_of x [] = x
last_of x (y ∷ ys) = last_of y ys

module _ (paddr : ℕ → Option ℕ) (pa : ℕ → ℕ) (size flags : ℕ) where
  -- What a loop promises
  pub record Filled (bufs : List Buffer) (f g : Filling) : Type 0 where
    pub result : take_descs paddr size flags bufs f ≡ some g
    pub free : g.free ≡ walk_end f.table f.free (length bufs)
    pub last : g.last ≡ last_of f.last (walk f.table f.free (length bufs))
    pub same : SameNext f.table g.table
    pub outside :
        (i : ℕ) → has i (walk f.table f.free (length bufs)) ≡ false → g.table i ≡ f.table i
    pub content :
        map (request g.table) (walk f.table f.free (length bufs)) ≡ map (posted pa flags) bufs

  -- The filling after the first buffer
  abbrev after_one : Buffer → Filling → Filling
  after_one buf f = record {
    table = write_at f.table f.free (set_buf (f.table f.free) (pa buf.va) buf flags);
    free = (f.table f.free).next;
    last = f.free;
  }

  after_one-SameNext : (buf : Buffer) (f : Filling) → SameNext f.table (after_one buf f).table
  after_one-SameNext buf f i = ground arith

  module _ (buf : Buffer) (bufs : List Buffer) (f g : Filling) where
    Filled-cons :
        paddr buf.va ≡ some (pa buf.va)
        → has f.free (walk f.table (f.table f.free).next (length bufs)) ≡ false
        → f.free < size
        → walk (after_one buf f).table (f.table f.free).next (length bufs)
          ≡ walk f.table (f.table f.free).next (length bufs)
        → Filled bufs (after_one buf f) g
        → Filled (buf ∷ bufs) f g
    Filled-cons m h b w i =
        let within : ltb size f.free ≡ false = ground arith in
        let same = after_one-SameNext buf f in
        let here : (f.free == f.free) ≡ true = ground arith in
        let head : request g.table f.free ≡ posted pa flags buf =
          ap (λ (d : Descriptor). (d.addr, d.len, d.flags))
            (i.outside f.free (rw w h)
              ∙ ap
                  (λ (t : Bool).
                    if t then set_buf (f.table f.free) (pa buf.va) buf flags else f.table f.free)
                  here) in
        record {
          result = rw (within, m, take_descs) i.result;
          free =
              i.free
              ∙ walk_end-SameNext f.table (after_one buf f).table same (f.table f.free).next
                  (length bufs);
          last = i.last ∙ ap (last_of f.free) w;
          same = λ j. i.same j ∙ same j;
          outside = λ j o. i.outside j (rw w (ground arith)) ∙ ground arith;
          content =
              rw head (
                ap (λ t. posted pa flags buf ∷ t) (ap (map (request g.table)) (sym w) ∙ i.content));
        }

  pub take_descs_lem :
      (bufs : List Buffer) (f : Filling)
      → Mapped paddr pa bufs
      → Distinct (walk f.table f.free (length bufs))
      → Below size (walk f.table f.free (length bufs))
      → (g : Filling) × Filled bufs f g
  take_descs_lem [] f m h b = (
    f,
    record {
      result = refl;
      free = refl;
      last = refl;
      same = λ i. refl;
      outside = λ i o. refl;
      content = refl;
    },
  )
  take_descs_lem (buf ∷ bufs) f m h b =
      let w =
        walk-SameNext f.table (after_one buf f).table (after_one-SameNext buf f)
          (f.table f.free).next (length bufs) in
      let (g, i) = take_descs_lem bufs (after_one buf f) m.1 (rw w h.1) (rw w b.1) in
      (g, Filled-cons buf bufs f g m.0 h.0 b.0 w i)
