-- ===== src/Shutdown.antt =====
-- internal/shutdown/shutdown.go: what the process does at a signal. The server's `stop` and `reload`
-- are given with the state `S` that they change, and say whether they succeed.
use web_server.Prelude.{◌≡◌, refl, Bool, false, List, [], ◌∷◌, ◌++◌, if◌then◌else◌}

pub data Line : Type 0 where
  shutdown_received shutdown_failed shutdown_complete : Line
  reload_received reload_failed reload_succeeded : Line

module _ {S : Type 0} where
  -- `Wait`, behind the signal.
  unfoldable pub wait : (S → S × Bool) → S → S × List Line
  wait stop s =
      let (s', ok) = stop s in
      (s', shutdown_received ∷ (if ok then shutdown_complete else shutdown_failed) ∷ [])

  -- One round of `WatchReload`.
  abbrev pub reload_once : (S → S × Bool) → S → S × List Line
  reload_once reload s =
      let (s', ok) = reload s in
      (s', reload_received ∷ (if ok then reload_succeeded else reload_failed) ∷ [])

  -- `WatchReload`, with the reload at each signal.
  unfoldable pub watch_reload : List (S → S × Bool) → S → S × List Line
  watch_reload [] s = (s, [])
  watch_reload (reload ∷ reloads) s =
      let (s', lines) = reload_once reload s in
      let (s'', more) = watch_reload reloads s' in (s'', lines ++ more)

  -- A reload that fails and changes nothing leaves no trace but in the log.
  pub watch_reload-failed :
      (reload : S → S × Bool) (reloads : List (S → S × Bool)) (s : S)
      → reload s ≡ (s, false)
      → watch_reload (reload ∷ reloads) s
        ≡ ((watch_reload reloads s).0, reload_received ∷ reload_failed ∷ (watch_reload reloads s).1)
  unfolding watch_reload
  watch_reload-failed reload reloads s h = rw h refl
