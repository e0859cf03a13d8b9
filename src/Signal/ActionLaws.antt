-- ===== src/Signal/ActionLaws.antt =====
-- Signal actions survive the trip to the c type and back, and dispositions are a map from signals.
use Prim.Native.Nat.{bit_and}
use jinux.Base.{
  ℕ, zero, suc, ◌-◌, ◌≤◌, ◌<◌, ◌≡◌, refl, ◌⊎◌, inl, inr, none, some, List, [], ◌∷◌, map, ok, arith,
  ◌==◌, if◌then◌else◌, length, get_elem?, get_elem?-set_self, get_elem?-set_ne,
}
use jinux.Base.Fields.{bit_and-absorb}
use jinux.Signal.{IsSigNum}
use jinux.Signal.Action.{
  CSigAction, SigAction, dfl, ign, user, all_flags, try_from, as_c_type, SigDispositions, get,
  set_action, set_default, reset_user, inherit,
}

-- A handler is none of the two special addresses, and its flags are known ones.
abbrev pub IsAction : SigAction → Type 0
IsAction dfl = Unit
IsAction ign = Unit
IsAction (user handler_addr flags restorer_addr mask) =
    (2 ≤ handler_addr) × (bit_and flags all_flags ≡ flags)

-- A well-formed action, of which the handler is neither special address and the flags are known,
-- is the same action after it is turned into the c type and read back.
pub try_from-as_c_type : (a : SigAction) → IsAction a → try_from (as_c_type a) ≡ ok a
unfolding try_from as_c_type
try_from-as_c_type dfl h = refl
try_from-as_c_type ign h = refl
try_from-as_c_type (user handler_addr flags restorer_addr mask) h = ground arith

-- What becomes of a c action that is read and turned back: of the default action and of an ignored signal only the
-- handler is kept, of a user handler all but unknown flags.
abbrev pub TurnedBack : CSigAction → CSigAction → Type 0
TurnedBack c c' =
    ((c.handler_ptr < 2)
      × (c' ≡ record { handler_ptr = c.handler_ptr; flags = 0; restorer_ptr = 0; mask = 0 }))
    ⊎ ((2 ≤ c.handler_ptr) × (c' ≡ record c { flags = bit_and c.flags all_flags }))

-- Every c action is read as a well-formed action. If its handler is below 2, for the default action or an ignored
-- signal, turning that back gives the same handler with no flags, restorer or mask; else it gives the same c action but
-- for unknown flags. What was turned back is read as the same action again.
pub as_c_type-try_from :
    (c : CSigAction)
    → (a : SigAction) × (try_from c ≡ ok a)
      × IsAction a
      × TurnedBack c (as_c_type a)
      × (try_from (as_c_type a) ≡ ok a)
unfolding try_from as_c_type
as_c_type-try_from c = at_handler c c.handler_ptr refl
  where
    at_handler :
        (c : CSigAction) (n : ℕ)
        → c.handler_ptr ≡ n
        → (a : SigAction) × (try_from c ≡ ok a)
          × IsAction a
          × TurnedBack c (as_c_type a)
          × (try_from (as_c_type a) ≡ ok a)
    at_handler c zero e = (dfl, ground arith, tt, inl (omega arith, ground arith), refl)
    at_handler c (suc zero) e = (ign, ground arith, tt, inl (omega arith, ground arith), refl)
    at_handler c (suc (suc n)) e =
        let a : SigAction =
          user c.handler_ptr (bit_and c.flags all_flags) c.restorer_ptr
            (record { bits = c.mask }) in
        let known : IsAction a = (omega arith, bit_and-absorb c.flags all_flags) in
        (a, ground arith, known, inr (omega arith, refl), try_from-as_c_type a known)

reset_at :
    (xs : List SigAction) (i : ℕ)
    → get_elem? (map reset_user xs) i
      ≡ (elim (get_elem? xs i) [ none ↦ none | some a ↦ some (reset_user a) ])
reset_at [] i = refl
reset_at (x ∷ xs) zero = refl
reset_at (x ∷ xs) (suc i) = reset_at xs i

-- For two signals of a full table: setting an action or the default changes the one signal alone,
-- and `inherit` resets user handlers to the default and keeps what is ignored or default.
pub dispositions_view :
    (d : SigDispositions) (n m : ℕ) (a : SigAction)
    → length d.map ≡ 64
    → IsSigNum n
    → IsSigNum m
    → (get (set_action d n a) m ≡ (if n == m then some a else get d m))
      × (get (set_default d n) m ≡ (if n == m then some dfl else get d m))
      × (get (inherit d) m ≡ (elim (get d m) [
        | none ↦ none
        | some dfl ↦ some dfl
        | some ign ↦ some ign
        | some (user h f r k) ↦ some dfl
      ]))
unfolding get set_action set_default inherit
dispositions_view d n m a len hn hm = (
  ground (
    arith,
    get_elem?-set_self d.map (n - 1) a (omega (arith, hn.least, hn.most)),
    get_elem?-set_ne d.map (n - 1) (m - 1) a,
    hn.least,
    hm.least,
  ),
  ground (
    arith,
    get_elem?-set_self d.map (n - 1) dfl (omega (arith, hn.least, hn.most)),
    get_elem?-set_ne d.map (n - 1) (m - 1) dfl,
    hn.least,
    hm.least,
  ),
  ground (arith, reset_at d.map (m - 1)),
)
