-- ===== src/Reactor/Connector/Reached.antt =====
-- What holds of a connector at any time (JKYi/reactor/Connector.cc).
use jkyi.Base.{
  ℕ, ◌≡◌, refl, sym, ◌∙◌, arith, Bool, true, false, Option, none, some, List, [], ◌∷◌, ◌++◌,
}
use jkyi.Reactor.Connector.{
  Connector, disconnected, Job, start_job, stop_job, reset_job, einprogress, is_connecting,
  init_retry_delay_ms, create, verdict, retry, set_connecting, connect, start_in_loop, start, stop,
  restart, remove_and_reset_channel, stop_in_loop, run_first,
}
use jkyi.Reactor.Connector.Steps.{
  Step, started, stopped, restarted, looped, timed, polled, Reach, created, later, resets, Inv,
}
use mathlib.Core.Path.{subst}
use jkyi.Reactor.Connector.Owner.{Kept, start_in_loop-Kept}
use jkyi.Reactor.Connector.Callbacks.{run_first-Kept, handle_event-Kept}

resets-append :
    (jobs : List Job) (job : Job)
    → resets (job ∷ []) ≡ 0
    → resets (jobs ++ (job ∷ [])) ≡ resets jobs
resets-append [] job e = e
resets-append (j ∷ jobs) job e = omega (arith, resets-append jobs job e)

kept : {o : Option Connector} {c' : Connector} → o ≡ some c' → Kept o → Inv c'
kept e k = subst Kept e k

Step-Inv : {c c' : Connector} → Inv c → Step c c' → Inv c'
unfolding start stop restart
Step-Inv {c} v (started true sockfd errno e) =
    kept e (start_in_loop-Kept sockfd errno (record c { connect_flag = true }) (flagged true))
  where
    flagged : (b : Bool) → Inv (record c { connect_flag = b })
    flagged b = record {
      has_channel = v.has_channel;
      watched_lem = v.watched_lem;
      resets_lem = v.resets_lem;
      owned = v.owned;
      delay_lem = v.delay_lem;
    }
Step-Inv {c} v (started false sockfd errno e) = kept e (record {
  has_channel = v.has_channel;
  watched_lem = v.watched_lem;
  resets_lem = resets-append c.pending start_job refl ∙ v.resets_lem;
  owned = v.owned;
  delay_lem = v.delay_lem;
})
Step-Inv {c} v stopped = record {
  has_channel = v.has_channel;
  watched_lem = v.watched_lem;
  resets_lem = resets-append c.pending stop_job refl ∙ v.resets_lem;
  owned = v.owned;
  delay_lem = v.delay_lem;
}
Step-Inv {c} v (restarted sockfd errno idle e) = kept e (
    start_in_loop-Kept sockfd errno
      (record c { state = disconnected; retry_delay_ms = init_retry_delay_ms; connect_flag = true })
      (record {
        has_channel = λ f. absurd (cc);
        watched_lem = v.watched_lem ∙ idle;
        resets_lem = v.resets_lem;
        owned = v.owned;
        delay_lem = refl;
      }))
Step-Inv {c} v (looped sockfd errno e) = kept e (run_first-Kept sockfd errno c v)
Step-Inv {c} v (timed sockfd errno n m e) = kept e (
    start_in_loop-Kept sockfd errno (record c { timers = n })
      (record {
        has_channel = v.has_channel;
        watched_lem = v.watched_lem;
        resets_lem = v.resets_lem;
        owned = v.owned;
        delay_lem = v.delay_lem;
      }))
Step-Inv {c} v (polled error writable err self_connect w e) =
    kept e (handle_event-Kept error writable err self_connect c v)

-- At any time a connector that is connecting has a channel that is watched, and no other has one; a
-- channel that is not watched has its reset pending once; each socket opened is closed, handed over
-- or the channel's, exactly once for each time that it was opened; and the retry delay is still the
-- initial one, so it never grows.
pub Reach-Inv : {c : Connector} → Reach c → Inv c
unfolding create
Reach-Inv created = record {
  has_channel = λ f. absurd (cc);
  watched_lem = refl;
  resets_lem = refl;
  owned = λ fd. refl;
  delay_lem = refl;
}
Reach-Inv (later r st) = Step-Inv (Reach-Inv r) st

-- When `stop` and then `start` are called from another thread on a connector that is connecting
-- with no functor pending, the loop first runs the functor of `stop`, which leaves the connector
-- disconnected and wanted, with the old channel still set and its reset queued behind the functor
-- of `start`. If the loop runs that one then, and connect(2) gives EINPROGRESS, an assertion fails.
pub stop-start :
    (sockfd fd : ℕ) (c : Connector)
    → Reach c
    → is_connecting c.state ≡ true
    → c.pending ≡ []
    → (old : ℕ) × (c1 : Connector) × (c2 : Connector) × (start false sockfd einprogress (stop c)
        ≡ some c1)
      × (run_first fd einprogress c1 ≡ some c2)
      × (c2.state ≡ disconnected)
      × (c2.connect_flag ≡ true)
      × (c.channel ≡ some old)
      × (c2.channel ≡ some old)
      × (c2.pending ≡ start_job ∷ reset_job ∷ [])
      × (run_first sockfd einprogress c2 ≡ none)
unfolding start stop run_first stop_in_loop remove_and_reset_channel retry start_in_loop connect
    set_connecting verdict
stop-start sockfd fd c r y p =
    let (old, e) = (Reach-Inv r).has_channel y in
    let c1 : Connector = record c { connect_flag = true; pending = stop_job ∷ start_job ∷ [] } in
    let left : Option ℕ → Connector = λ channel. retry old (record c {
      connect_flag = true;
      state = disconnected;
      channel = channel;
      watched = false;
      pending = start_job ∷ reset_job ∷ [];
    }) in
    let stopped : run_first fd einprogress c1 ≡ some (left c.channel) =
      subst
        (λ channel.
          run_first fd einprogress (record c1 { channel = channel }) ≡ some (left channel))
        (sym e) (rw y refl) in
    (old, c1, left c.channel, rw p refl, stopped, refl, refl, e, e, refl, rw e refl)
