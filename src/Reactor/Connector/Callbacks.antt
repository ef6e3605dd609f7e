-- ===== src/Reactor/Connector/Callbacks.antt =====
-- The callbacks and functors of a connector (JKYi/reactor/Connector.cc) keep its invariant.
use jkyi.Base.Options.{◌>>=◌}
use jkyi.Base.{
  ℕ, ◌+◌, ◌≡◌, refl, sym, ◌∙◌, ap, arith, Bool, true, false, Option, none, some, List, [], ◌∷◌,
  ◌++◌, ◌==◌, if◌then◌else◌, Bool-cases, ◌⊎◌, inl, inr,
}
use jkyi.Reactor.Connector.{
  Connector, State, disconnected, connected, Job, start_job, stop_job, reset_job, Errno,
  is_disconnected, is_connecting, retry, remove_and_reset_channel, stop_in_loop, reset_channel,
  handle_write, handle_error, run_first, handle_event,
}
use jkyi.Reactor.Connector.Steps.{count, resets, held_by, to_reset, Inv}
use jkyi.Reactor.Connector.Owner.{Loose, retry-Inv, Kept, Kept-if, Inv-if, start_in_loop-Kept}

-- The channel of a connector that is connecting is given up: its socket is in hand.
released :
    (sockfd : ℕ) (s : State) (c : Connector)
    → Inv c
    → c.watched ≡ true
    → c.channel ≡ some sockfd
    → Loose sockfd
        (record c { state = s; watched = false; pending = c.pending ++ (reset_job ∷ []) })
released sockfd s c v w e = record {
  unwatched = refl;
  resets_lem =
      resets-append c.pending
      ∙ ap (λ (n : ℕ). n + 1)
          (v.resets_lem ∙ ap (λ (b : Bool). to_reset b c.channel) w ∙ ap (to_reset true) e)
      ∙ sym (ap (to_reset false) e);
  owned = λ fd.
      let held : held_by c.watched c.channel fd ≡ (if sockfd == fd then 1 else 0) =
        ap (λ (b : Bool). held_by b c.channel fd) w ∙ ap (λ (o : Option ℕ). held_by true o fd) e in
      v.owned fd ∙ ap (λ (n : ℕ). count fd c.closed + count fd c.handed + n) held;
  delay_lem = v.delay_lem;
}
  where
    resets-append : (jobs : List Job) → resets (jobs ++ (reset_job ∷ [])) ≡ resets jobs + 1
    resets-append [] = refl
    resets-append (job ∷ jobs) = omega (arith, resets-append jobs)

-- For a connector that is connecting, what comes after removeAndResetChannel
removed-Kept :
    (c : Connector) (s : State) (next : ℕ → Connector → Connector)
    → Inv c
    → is_connecting c.state ≡ true
    → ((sockfd : ℕ) (c' : Connector) → Loose sockfd c' → Inv (next sockfd c'))
    → Kept (
        remove_and_reset_channel (record c { state = s }) >>= λ (sockfd, c'). some (next sockfd c'))
unfolding remove_and_reset_channel
removed-Kept c s next v y after =
    let (sockfd, e) = v.has_channel y in
    rw e (
      after sockfd
        (record c { state = s; watched = false; pending = c.pending ++ (reset_job ∷ []) })
        (released sockfd s c v (v.watched_lem ∙ y) e))

stop_in_loop-Kept : (c : Connector) → Inv c → Kept (stop_in_loop c)
unfolding stop_in_loop
stop_in_loop-Kept c v = elim (Bool-cases (is_connecting c.state)) [
  | inl y ↦ rw y (removed-Kept c disconnected retry v y retry-Inv)
  | inr n ↦ rw n v
]

handle_error-Kept : (c : Connector) → Inv c → Kept (handle_error c)
unfolding handle_error
handle_error-Kept c v = elim (Bool-cases (is_connecting c.state)) [
  | inl y ↦ rw y (removed-Kept c c.state retry v y retry-Inv)
  | inr n ↦ rw n v
]

-- The socket of a connection goes to the callback, or is closed.
passed_on :
    (sockfd : ℕ) (c : Connector)
    → Loose sockfd c
    → (c' : Connector)
    → (c' ≡ record c { state = connected; handed = sockfd ∷ c.handed })
      ⊎ (c' ≡ record c { state = connected; closed = sockfd ∷ c.closed })
    → Inv c'
passed_on sockfd c l c' (inl e) = rw e record {
  has_channel = λ f. absurd (cc);
  watched_lem = l.unwatched;
  resets_lem = rw l.unwatched l.resets_lem;
  owned = λ fd. rw l.unwatched (omega (arith, l.owned fd));
  delay_lem = l.delay_lem;
}
passed_on sockfd c l c' (inr e) = rw e record {
  has_channel = λ f. absurd (cc);
  watched_lem = l.unwatched;
  resets_lem = rw l.unwatched l.resets_lem;
  owned = λ fd. rw l.unwatched (omega (arith, l.owned fd));
  delay_lem = l.delay_lem;
}

handle_write-Kept :
    (err self_connect : Bool) (c : Connector) → Inv c → Kept (handle_write err self_connect c)
unfolding handle_write
handle_write-Kept err self_connect c v = elim (Bool-cases (is_connecting c.state)) [
  | inl y ↦ rw y (
      removed-Kept c c.state
        (λ sockfd c'.
          if err
          then retry sockfd c'
          else if self_connect
          then retry sockfd c'
          else if c.connect_flag
          then record c' { state = connected; handed = sockfd ∷ c'.handed }
          else record c' { state = connected; closed = sockfd ∷ c'.closed })
        v y
        (λ sockfd c' l. Inv-if err _ _ (retry-Inv sockfd c' l) (
          Inv-if self_connect _ _ (retry-Inv sockfd c' l) (
            Inv-if c.connect_flag _ _ (passed_on sockfd c' l _ (inl refl))
              (passed_on sockfd c' l _ (inr refl))))))
  | inr n ↦ rw n (Kept-if (is_disconnected c.state) (some c) none v tt)
]

-- The reset of a channel that is not watched
reset_done :
    (c : Connector) (jobs : List Job)
    → Inv c
    → c.pending ≡ reset_job ∷ jobs
    → Inv (record c { pending = jobs; channel = none })
reset_done c jobs v e = by_state c.watched c.channel refl refl
  where
    by_case :
        (b : Bool) (o : Option ℕ)
        → c.watched ≡ b
        → c.channel ≡ o
        → 1 + resets jobs ≡ to_reset b o
        → Inv (record c { pending = jobs; channel = none })
    by_case true none w h one = absurd (omega (arith, one))
    by_case true (some x) w h one = absurd (omega (arith, one))
    by_case false none w h one = absurd (omega (arith, one))
    by_case false (some x) w h one = record {
      has_channel = λ y. absurd (let f : true ≡ false = sym y ∙ sym v.watched_lem ∙ w in cc);
      watched_lem = v.watched_lem;
      resets_lem = rw w (omega (arith, one));
      owned = λ fd.
          let held : held_by c.watched c.channel fd ≡ 0 =
            ap (λ (b : Bool). held_by b c.channel fd) w in
          rw w (omega (arith, v.owned fd, held));
      delay_lem = v.delay_lem;
    }

    by_state :
        (b : Bool) (o : Option ℕ)
        → c.watched ≡ b
        → c.channel ≡ o
        → Inv (record c { pending = jobs; channel = none })
    by_state b o w h =
        let one : 1 + resets jobs ≡ to_reset b o =
          ap resets (sym e)
          ∙ v.resets_lem
          ∙ ap (λ (b : Bool). to_reset b c.channel) w
          ∙ ap (to_reset b) h in
        by_case b o w h one

pub run_first-Kept :
    (sockfd : ℕ) (errno : Errno) (c : Connector) → Inv c → Kept (run_first sockfd errno c)
unfolding run_first reset_channel
run_first-Kept sockfd errno c v = by_jobs c.pending refl
  where
    shorter :
        (jobs : List Job)
        → resets jobs ≡ to_reset c.watched c.channel
        → Inv (record c { pending = jobs })
    shorter jobs e = record {
      has_channel = v.has_channel;
      watched_lem = v.watched_lem;
      resets_lem = e;
      owned = v.owned;
      delay_lem = v.delay_lem;
    }

    by_jobs : (jobs : List Job) → c.pending ≡ jobs → Kept (run_first sockfd errno c)
    by_jobs [] e = rw e (shorter [] (ap resets (sym e) ∙ v.resets_lem))
    by_jobs (start_job ∷ jobs) e = rw e (
        start_in_loop-Kept sockfd errno (record c { pending = jobs })
          (shorter jobs (omega (arith, ap resets e, v.resets_lem))))
    by_jobs (stop_job ∷ jobs) e = rw e (
        stop_in_loop-Kept (record c { pending = jobs })
          (shorter jobs (omega (arith, ap resets e, v.resets_lem))))
    by_jobs (reset_job ∷ jobs) e = rw e (reset_done c jobs v e)

pub handle_event-Kept :
    (error writable err self_connect : Bool) (c : Connector)
    → Inv c
    → Kept (handle_event error writable err self_connect c)
unfolding handle_event
handle_event-Kept error writable err self_connect c v =
    then_write (if error then handle_error c else some c)
      (Kept-if error (handle_error c) (some c) (handle_error-Kept c v) v)
  where
    then_write :
        (o : Option Connector)
        → Kept o
        → Kept (o >>= λ c'. if writable then handle_write err self_connect c' else some c')
    then_write none k = tt
    then_write (some c') k =
        Kept-if writable (handle_write err self_connect c') (some c')
          (handle_write-Kept err self_connect c' k) k
