-- ===== src/Server/Lifecycle.antt =====
-- server.go: Close of a server.
use coalago.Base.{
  ℕ, zero, suc, ◌+◌, ◌≤◌, ◌≡◌, refl, ap, ◌∙◌, arith, Bool, true, Option, none, some, if◌then◌else◌,
}
use coalago.Constants.{Error}

-- What Close reads and writes: whether closeOnce has run, closeErr, the error that closing the
-- connection and the TCP listener would give, where they are there, and how often each was closed.
pub record Sockets : Type 0 where
  pub once : Bool
  pub close_err : Option Error
  pub conn : Option (Option Error)
  pub tcp_ln : Option (Option Error)
  pub conn_closes : ℕ
  pub ln_closes : ℕ

unfoldable pub close_conn : Sockets → Sockets
close_conn s = elim s.conn [
  | none ↦ s
  | some e ↦ record s { close_err = e; conn_closes = s.conn_closes + 1 }
]

-- The error of the listener counts only where there is none yet.
unfoldable pub first_error : Option Error → Option Error → Option Error
first_error none e = e
first_error (some d) e = some d

unfoldable pub close_listener : Sockets → Sockets
close_listener s = elim s.tcp_ln [
  | none ↦ s
  | some e ↦ record s { close_err = first_error s.close_err e; ln_closes = s.ln_closes + 1 }
]

-- Close: the state after it, and its result.
unfoldable pub close : Sockets → Sockets × Option Error
close s =
    if s.once
    then (s, s.close_err)
    else (let s' = close_listener (close_conn (record s { once = true })) in (s', s'.close_err))

once-close : (s : Sockets) → (close s).0.once ≡ true
unfolding close close_listener close_conn
once-close s = ground arith

close-done : (s : Sockets) → s.once ≡ true → close s ≡ (s, s.close_err)
unfolding close
close-done s e = rw e refl

result-close : (s : Sockets) → (close s).1 ≡ (close s).0.close_err
unfolding close
result-close s = ground arith

-- Close, called `n` times.
unfoldable pub close_times : ℕ → Sockets → Sockets
close_times zero s = s
close_times (suc n) s = close_times n (close s).0

again : (k : ℕ) (u : Sockets) → u.once ≡ true → close_times k u ≡ u
unfolding close_times
again zero u e = refl
again (suc k) u e = ap (close_times k) (ap (λ r. r.0) (close-done u e)) ∙ again k u e

-- However often Close is called, it is as if it was called once: the state is the same, so each socket
-- was closed at most once more, and a further call has the result of the first.
pub close_times_once :
    (n : ℕ) (s : Sockets)
    → (close_times (suc n) s ≡ (close s).0)
      × ((close (close_times (suc n) s)).1 ≡ (close s).1)
      × ((close_times (suc n) s).conn_closes ≤ s.conn_closes + 1)
      × ((close_times (suc n) s).ln_closes ≤ s.ln_closes + 1)
close_times_once n s = (
  once n,
  rw (once n, close-done (close s).0 (once-close s), result-close s) refl,
  rw (once n) (conn_bound s),
  rw (once n) (ln_bound s),
)
  where
    once : (k : ℕ) → close_times (suc k) s ≡ (close s).0
    once k = unfold close_times in (again k (close s).0 (once-close s))

    conn_bound : (u : Sockets) → (close u).0.conn_closes ≤ u.conn_closes + 1
    conn_bound u = unfold close close_listener close_conn in ground arith

    ln_bound : (u : Sockets) → (close u).0.ln_closes ≤ u.ln_closes + 1
    ln_bound u = unfold close close_listener close_conn in ground arith
