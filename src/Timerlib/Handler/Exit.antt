-- ===== src/Timerlib/Handler/Exit.antt =====
-- The handler thread ends after timerlib_graceful_exit, so that timerlib_join returns.
use mediawiki_php_excimer.Prelude.{ℕ, ◌+◌, ◌≡◌, ◌≢◌, true, none}
use mediawiki_php_excimer.Timerlib.Handler.{SignalApi, Phase, starting, waiting, exited, System}

-- How many steps the handler has left once it is told to exit.
unfoldable pub work : Phase → ℕ
work starting = 2
work waiting = 1
work exited = 0

module _ ⦃K : SignalApi⦄ where
  -- The signal is sent after `killed` is set, and waits until the thread exits.
  record Ends (s : System K) : Type 0 where
    ordered : s.sent ≡ true → s.killed ≡ true
    waits : s.sent ≡ true → s.phase ≢ exited → K.take s.queue ≢ none

  -- What is left of the handler's work after some steps.
  record Left (s : System K) (k : ℕ) (t : System K) : Type 0 where
    killed : t.killed ≡ true
    sent : t.sent ≡ true
    left : k + work t.phase ≡ work s.phase
