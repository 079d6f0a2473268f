-- ===== src/Upstream/Racing/Alone.antt =====
-- A call that no other interrupts.
use web_server.Prelude.{ℕ, zero, suc, ◌≡◌, arith}
use web_server.Upstream.{Upstream, try_half_open}
use web_server.Upstream.Racing.{Pc, begin, returned, act}

-- So many steps of one call at one time.
pub steps : ℕ → ℕ → Pc → Upstream → Upstream × Pc
steps zero now p u = (u, p)
steps (suc n) now p u = let (u', p') = act now p u in steps n now p' u'

-- Without interruption a call ends after six steps, with the upstream and the answer of
-- `TryHalfOpen` as one operation.
pub steps-try_half_open :
    (now : ℕ) (u : Upstream)
    → steps 6 now begin u ≡ ((try_half_open now u).0, returned (try_half_open now u).1)
unfolding steps act try_half_open
steps-try_half_open now u = ground arith
