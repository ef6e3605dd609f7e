-- ===== src/Reactor/Connector/Steps.antt =====
-- What can happen to a connector (JKYi/reactor/Connector.cc), and its invariant.
use jkyi.Base.{ℕ, ◌+◌, ◌≡◌, Bool, true, false, Option, some, List, [], ◌∷◌, ◌==◌, if◌then◌else◌}
use jkyi.Reactor.Connector.{
  Connector, Job, Errno, reset_job, is_connecting, init_retry_delay_ms, create, start, stop,
  restart, start_in_loop, run_first, handle_event,
}

-- One step: a call of a public function, a functor of the loop, a timer, or an event of a channel
-- that is watched. `restart` is called on a connector whose connection was handed over.
pub data Step (c : Connector) : Connector → Type 0 where
  started :
      (in_loop : Bool) (sockfd : ℕ) (errno : Errno) {c' : Connector}
      → start in_loop sockfd errno c ≡ some c'
      → Step c c'
  stopped : Step c (stop c)
  restarted :
      (sockfd : ℕ) (errno : Errno) {c' : Connector}
      → is_connecting c.state ≡ false
      → restart sockfd errno c ≡ some c'
      → Step c c'
  looped :
      (sockfd : ℕ) (errno : Errno) {c' : Connector} → run_first sockfd errno c ≡ some c' → Step c c'
  timed :
      (sockfd : ℕ) (errno : Errno) (n : ℕ) {c' : Connector}
      → c.timers ≡ n + 1
      → start_in_loop sockfd errno (record c { timers = n }) ≡ some c'
      → Step c c'
  polled :
      (error writable err self_connect : Bool) {c' : Connector}
      → c.watched ≡ true
      → handle_event error writable err self_connect c ≡ some c'
      → Step c c'

pub data Reach : Connector → Type 0 where
  created : Reach create
  later : {c c' : Connector} → Reach c → Step c c' → Reach c'

abbrev pub count : ℕ → List ℕ → ℕ
count fd [] = 0
count fd (x ∷ xs) = (if x == fd then 1 else 0) + count fd xs

abbrev is_reset : Job → ℕ
is_reset reset_job = 1
is_reset _ = 0

abbrev pub resets : List Job → ℕ
resets [] = 0
resets (job ∷ jobs) = is_reset job + resets jobs

abbrev pub held_by : Bool → Option ℕ → ℕ → ℕ
held_by true (some x) fd = if x == fd then 1 else 0
held_by _ _ fd = 0

abbrev pub to_reset : Bool → Option ℕ → ℕ
to_reset false (some x) = 1
to_reset _ _ = 0

-- A connector that is connecting has a channel, which is watched, and no other has a watched one; a
-- channel that is not watched has its reset pending; every socket that was opened is closed, handed
-- over, or the channel's, as often as it was opened; and the retry delay is the initial one.
pub record Inv (c : Connector) : Type 0 where
  pub has_channel : is_connecting c.state ≡ true → (fd : ℕ) × (c.channel ≡ some fd)
  pub watched_lem : c.watched ≡ is_connecting c.state
  pub resets_lem : resets c.pending ≡ to_reset c.watched c.channel
  pub owned :
      (fd : ℕ)
      → count fd c.opened ≡ count fd c.closed + count fd c.handed + held_by c.watched c.channel fd
  pub delay_lem : c.retry_delay_ms ≡ init_retry_delay_ms
