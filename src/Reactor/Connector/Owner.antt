-- ===== src/Reactor/Connector/Owner.antt =====
-- Connecting and retrying (JKYi/reactor/Connector.cc) keep a connector's invariant.
use jkyi.Base.{
  ℕ, ◌+◌, ◌≡◌, refl, ◌∙◌, ap, arith, Bool, true, false, Option, none, some, ◌∷◌, ◌==◌,
  if◌then◌else◌, Bool-cases, inl, inr,
}
use jkyi.Reactor.Connector.{
  Connector, State, disconnected, connecting, connected, Errno, is_disconnected, is_connecting,
  init_retry_delay_ms, Verdict, go_on, try_again, give_up, verdict, retry, set_connecting, connect,
  start_in_loop,
}
use jkyi.Reactor.Connector.Steps.{count, resets, held_by, to_reset, Inv}

-- The invariant but for one socket, which is in hand, of a connector whose channel is not watched.
pub record Loose (sockfd : ℕ) (c : Connector) : Type 0 where
  pub unwatched : c.watched ≡ false
  pub resets_lem : resets c.pending ≡ to_reset false c.channel
  pub owned :
      (fd : ℕ)
      → count fd c.opened ≡ count fd c.closed + count fd c.handed + (if sockfd == fd then 1 else 0)
  pub delay_lem : c.retry_delay_ms ≡ init_retry_delay_ms

pub retry-Inv : (sockfd : ℕ) (c : Connector) → Loose sockfd c → Inv (retry sockfd c)
unfolding retry
retry-Inv sockfd c l = elim (Bool-cases c.connect_flag) [
  | inl y ↦ rw y record {
    has_channel = λ e. absurd (cc);
    watched_lem = l.unwatched;
    resets_lem = rw l.unwatched l.resets_lem;
    owned = λ fd. rw l.unwatched (omega (arith, l.owned fd));
    delay_lem = ground (arith, l.delay_lem);
  }
  | inr n ↦ rw n record {
    has_channel = λ e. absurd (cc);
    watched_lem = l.unwatched;
    resets_lem = rw l.unwatched l.resets_lem;
    owned = λ fd. rw l.unwatched (omega (arith, l.owned fd));
    delay_lem = l.delay_lem;
  }
]

-- An operation that does not fail keeps the invariant.
abbrev pub Kept : Option Connector → Type 0
Kept none = Unit
Kept (some c) = Inv c

pub Kept-if : (b : Bool) (x y : Option Connector) → Kept x → Kept y → Kept (if b then x else y)
Kept-if true x y k l = k
Kept-if false x y k l = l

pub Inv-if : (b : Bool) (x y : Connector) → Inv x → Inv y → Inv (if b then x else y)
Inv-if true x y k l = k
Inv-if false x y k l = l

pub set_connecting-Kept :
    (sockfd : ℕ) (c : Connector) → Loose sockfd c → Kept (set_connecting sockfd c)
unfolding set_connecting
set_connecting-Kept sockfd c l = by_channel c.channel refl
  where
    by_channel : (o : Option ℕ) → c.channel ≡ o → Kept (set_connecting sockfd c)
    by_channel none e = rw e record {
      has_channel = λ _. (sockfd, refl);
      watched_lem = refl;
      resets_lem = l.resets_lem ∙ ap (to_reset false) e;
      owned = l.owned;
      delay_lem = l.delay_lem;
    }
    by_channel (some old) e = rw e tt

pub connect-Kept :
    (sockfd : ℕ) (errno : Errno) (c : Connector)
    → Inv c
    → c.watched ≡ false
    → Kept (connect sockfd errno c)
unfolding connect
connect-Kept sockfd errno c v w = by_verdict (verdict errno)
  where
    opened : Loose sockfd (record c { opened = sockfd ∷ c.opened })
    opened = record {
      unwatched = w;
      resets_lem = v.resets_lem ∙ ap (λ (b : Bool). to_reset b c.channel) w;
      owned = λ fd.
          let held : held_by c.watched c.channel fd ≡ 0 =
            ap (λ (b : Bool). held_by b c.channel fd) w in
          omega (arith, v.owned fd, held);
      delay_lem = v.delay_lem;
    }

    by_verdict :
        (d : Verdict)
        → Kept (elim d [
          | go_on ↦ set_connecting sockfd (record c { opened = sockfd ∷ c.opened })
          | try_again ↦ some (retry sockfd (record c { opened = sockfd ∷ c.opened }))
          | give_up ↦ some (record c { opened = sockfd ∷ c.opened; closed = sockfd ∷ c.closed })
        ])
    by_verdict go_on = set_connecting-Kept sockfd (record c { opened = sockfd ∷ c.opened }) opened
    by_verdict try_again = retry-Inv sockfd (record c { opened = sockfd ∷ c.opened }) opened
    by_verdict give_up = record {
      has_channel = v.has_channel;
      watched_lem = v.watched_lem;
      resets_lem = v.resets_lem;
      owned = λ fd. omega (arith, v.owned fd);
      delay_lem = v.delay_lem;
    }

pub start_in_loop-Kept :
    (sockfd : ℕ) (errno : Errno) (c : Connector) → Inv c → Kept (start_in_loop sockfd errno c)
unfolding start_in_loop
start_in_loop-Kept sockfd errno c v = elim (Bool-cases (is_disconnected c.state)) [
  | inl y ↦ rw y (
      Kept-if c.connect_flag (connect sockfd errno c) (some c)
        (connect-Kept sockfd errno c v (v.watched_lem ∙ apart c.state y)) v)
  | inr n ↦ rw n tt
]
  where
    apart : (s : State) → is_disconnected s ≡ true → is_connecting s ≡ false
    apart disconnected e = refl
    apart connecting e = absurd (cc)
    apart connected e = refl
