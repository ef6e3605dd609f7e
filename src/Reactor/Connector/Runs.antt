-- ===== src/Reactor/Connector/Runs.antt =====
-- Runs of the connector.
use jkyi.Base.{ℕ, ◌≡◌, refl, true, false, none, some, [], ◌∷◌}
use jkyi.Reactor.Connector.{
  Connector, disconnected, connecting, connected, start_job, reset_job, success, einprogress,
  verdict, create, set_connecting, connect, start_in_loop, start, stop, remove_and_reset_channel,
  handle_write, run_first, handle_event,
}
use jkyi.Reactor.Connector.Steps.{started, polled, Reach, created, later, Inv}
use jkyi.Reactor.Connector.Reached.{Reach-Inv, stop-start}

-- After `start` in the loop's thread, with the socket 7
abbrev trying : Connector
trying = record {
  connect_flag = true;
  state = connecting;
  channel = some 7;
  watched = true;
  retry_delay_ms = 500;
  pending = [];
  timers = 0;
  opened = 7 ∷ [];
  closed = [];
  handed = [];
}

started_run : start true 7 einprogress create ≡ some trying
unfolding start create start_in_loop connect verdict set_connecting
started_run = refl

abbrev done : Connector
done = record trying {
  state = connected;
  watched = false;
  pending = reset_job ∷ [];
  handed = 7 ∷ [];
}

written_run : handle_event false true false false trying ≡ some done
unfolding handle_event handle_write remove_and_reset_channel
written_run = refl

abbrev trying-Reach : Reach trying
trying-Reach = later created (started true 7 einprogress started_run)

Reach-Inv_example : Inv done
Reach-Inv_example = Reach-Inv (later trying-Reach (polled false true false false refl written_run))

stop-start_example :
    (old : ℕ) × (c1 : Connector) × (c2 : Connector) × (start false 9 einprogress (stop trying)
      ≡ some c1)
    × (run_first 8 einprogress c1 ≡ some c2)
    × (c2.state ≡ disconnected)
    × (c2.connect_flag ≡ true)
    × (trying.channel ≡ some old)
    × (c2.channel ≡ some old)
    × (c2.pending ≡ start_job ∷ reset_job ∷ [])
    × (run_first 9 einprogress c2 ≡ none)
stop-start_example = stop-start 9 8 trying trying-Reach refl refl

-- `start` twice in the loop's thread fails its assertion.
started_twice : start true 9 success trying ≡ none
unfolding start start_in_loop
started_twice = refl
