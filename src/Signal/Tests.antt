-- ===== src/Signal/Tests.antt =====
-- Signals that are their own numbers, in the queues of sig_queues.rs.
use jinux.Base.{ℕ, ◌≡◌, refl, ◌⊎◌, Bool, true, some, none, ok, length, arith}
use jinux.Signal.{IsSigNum}
use jinux.Signal.Mask.{SigMask}
use jinux.Signal.MaskLaws.{IsWord}
use jinux.Signal.Action
use jinux.Signal.Action.{
  SigAction, CSigAction, dfl, ign, user, as_c_type, SigDispositions, set_action, set_default,
  inherit,
}
use jinux.Signal.ActionLaws.{IsAction, TurnedBack, as_c_type-try_from}
use jinux.Signal.Queues.{SigQueues, dequeue, new, put_std}
use jinux.Signal.Pending.{IsValid, pending-put_std}
use jinux.Signal.Enqueue.{new-IsValid, Dropped, Taken, enqueue_lem}
use jinux.Signal.Search.{Searched}
use jinux.Signal.Order.{delivery_order}
use jinux.Signal.Dequeue.{dequeue_lem}

abbrev self : ℕ → ℕ
self n = n

abbrev everyone : ℕ → Bool
everyone k = true

-- SIGKILL, SIGTERM and the blocked mask of SIGKILL alone.
sigkill-IsSigNum : IsSigNum 9
sigkill-IsSigNum = record { least = omega arith; most = omega arith }

sigterm-IsSigNum : IsSigNum 15
sigterm-IsSigNum = record { least = omega arith; most = omega arith }

abbrev kill_blocked : SigMask
kill_blocked = record { bits = 256 }

kill_blocked-IsWord : IsWord kill_blocked
kill_blocked-IsWord = omega arith

enqueue_lem_example : Dropped self everyone (new ℕ) 15 ⊎ Taken self everyone (new ℕ) 15
enqueue_lem_example = enqueue_lem self everyone (new ℕ) 15 (new-IsValid self) sigterm-IsSigNum

-- SIGTERM is pending.
abbrev term_pending : SigQueues ℕ
term_pending = put_std (new ℕ) 15 (some 15) 1

term_pending-IsValid : IsValid self term_pending
unfolding new jinux.Events.new
term_pending-IsValid = record {
  std_length = refl;
  rt_length = refl;
  counted = refl;
  subject = (new-IsValid self).subject;
  placed = λ n hn. ground (
    arith,
    pending-put_std (new ℕ) 15 n 1 (some 15) refl (omega arith) (omega arith) hn.least,
    (new-IsValid self).placed n hn,
  );
}

dequeue_lem_example :
    Searched self kill_blocked term_pending delivery_order (dequeue kill_blocked term_pending)
dequeue_lem_example = dequeue_lem self kill_blocked term_pending term_pending-IsValid

nothing_pending : dequeue kill_blocked (new ℕ) ≡ some (none, new ℕ)
unfolding dequeue new
nothing_pending = refl

-- A handler at 4096 with SA_SIGINFO.
abbrev handled : SigAction
handled = user 4096 4 8192 kill_blocked

-- A c action with a flag that is not known.
abbrev unknown_flag : CSigAction
unknown_flag = record { handler_ptr = 4096; flags = 12; restorer_ptr = 8192; mask = 256 }

as_c_type-try_from_example :
    (a : SigAction) × (Action.try_from unknown_flag ≡ ok a)
    × IsAction a
    × TurnedBack unknown_flag (as_c_type a)
    × (Action.try_from (as_c_type a) ≡ ok a)
as_c_type-try_from_example = as_c_type-try_from unknown_flag

new-length : length Action.new.map ≡ 64
unfolding Action.new
new-length = refl
