-- ===== src/Main/Session/Rounds.antt =====
-- The rounds of `runReconnectLoop` (cmd/nl-punch/main.go).
use mathlib.Core.Path.{subst}
use nl_punch.Prelude.{
  ℕ, suc, ◌+◌, ◌≤◌, [], ◌∷◌, List, map, take, length, Bytes, nat_eq, string_eq, Bool, Option, none,
  some, ◌≡◌, ◌⊎◌, refl, sym, ap, arith, Bool-cases, inl, inr,
}
use nl_punch.Stream.{Result, ok, err}
use nl_punch.Ice.{Start, Connected, no_agent, agent_closed, starts}
use nl_punch.Config.{Config}
use nl_punch.Config.Accepts.{IsAccepted}
use nl_punch.Main.{second, next_backoff, wait_for, waits_from, reconnect_waits}
use nl_punch.Main.Startup.{transport_side}
use nl_punch.Main.Session.{Process, idle, RunError, Run, run_once, side_transport}
use nl_punch.Main.Session.Reconnect.{Round, Loop, after_run, reconnect_from, run_reconnect_loop}
use nl_punch.Main.Session.Cleanup.{
  IsUp, of_failed, of_side, left_agents, left_transports, run_once-Stands,
}
use nl_punch.Main.Session.Deferred.{Stands}

-- How the loop stands after some rounds: between two sessions, with no connection and no socket, and
-- with at most `agents` agents and `transports` transports that have been left; or with one session
-- that is up.
pub record IsIdle (agents transports : ℕ) (p : Process) : Type 0 where
  pub left_agents : ℕ
  pub left_transports : ℕ
  pub agents_bound : left_agents ≤ agents
  pub transports_bound : left_transports ≤ transports
  pub is_idle : p ≡ idle left_agents left_transports

abbrev pub IsTidy {ℓ} : (E : Type ℓ) → Config → Bytes → ℕ → ℕ → Process → Type ℓ
IsTidy E c role agents transports p =
    IsIdle agents transports p ⊎ ((r : Run E) × IsUp c role r × (r.process ≡ p))

-- The waits of a loop are those of its first rounds.
abbrev pub AreFirst : List ℕ → List ℕ → Type 0
AreFirst waits all = (n : ℕ) × (waits ≡ take n all)

of_failed-le {ℓ} : {E : Type ℓ} (o : Result E ℕ) → of_failed o ≤ 1
of_failed-le (err e) = omega arith
of_failed-le (ok conn) = omega arith

of_side-le {ℓ} : {E : Type ℓ} (made : Bool) (o : Result E ℕ) → of_side made o ≤ 1
of_side-le made (err e) = omega arith
of_side-le made (ok conn) = ground arith

module _ {ℓ κ} {E : Type ℓ} {Candidate : Type κ} (made : Bool)
    (call : Start Candidate → Result E ℕ) where
  left_agents-le : (o : Connected E Candidate) → left_agents call o ≤ 1
  left_agents-le (no_agent e) = omega arith
  left_agents-le (agent_closed e) = omega arith
  left_agents-le (starts st) = of_failed-le (call st)

  left_transports-le : (o : Connected E Candidate) → left_transports made call o ≤ 1
  left_transports-le (no_agent e) = omega arith
  left_transports-le (agent_closed e) = omega arith
  left_transports-le (starts st) = of_side-le made (call st)

IsTidy-weaken {ℓ} :
    (E : Type ℓ) (c : Config) (role : Bytes) (a b x y : ℕ) (p : Process)
    → a ≤ x
    → b ≤ y
    → IsTidy E c role a b p
    → IsTidy E c role x y p
IsTidy-weaken E c role a b x y p ha hb (inl t) = inl (record {
  left_agents = t.left_agents;
  left_transports = t.left_transports;
  agents_bound = omega (arith, t.agents_bound);
  transports_bound = omega (arith, t.transports_bound);
  is_idle = t.is_idle;
})
IsTidy-weaken E c role a b x y p ha hb (inr up) = inr up

at_most : (a t : ℕ) (p : Process) → p ≡ idle a t → (n : ℕ) → IsIdle (a + n) (t + n) p
at_most a t p e n = record {
  left_agents = a;
  left_transports = t;
  agents_bound = omega arith;
  transports_bound = omega arith;
  is_idle = e;
}

module _ {ℓ κ} {E : Type ℓ} {Candidate : Type κ} (c : Config) (role : Bytes)
    (v : IsAccepted c) where
  after_run_lem :
      (backoff : ℕ) (r : Round E Candidate) (o : Run E) (result : Option (RunError E)) (rest : Loop)
      (jitters : List ℕ) (a t x y : ℕ)
      → a ≤ x
      → t ≤ y
      → Stands (IsUp c role) (idle a t) o result
      → (o.process ≡ idle a t
          → IsTidy E c role x y rest.process
            × AreFirst rest.waits (waits_from (next_backoff backoff) jitters))
      → let l = after_run backoff r o result rest in
        IsTidy E c role x y l.process × AreFirst l.waits (waits_from backoff (r.jitter ∷ jitters))
  unfolding waits_from
  after_run_lem backoff r o none rest jitters a t x y ha ht up later =
      (inr (o, up, refl), (0, refl))
  after_run_lem backoff r o (some e) rest jitters a t x y ha ht ended later =
      let stands : IsIdle x y o.process = record {
        left_agents = a;
        left_transports = t;
        agents_bound = ha;
        transports_bound = ht;
        is_idle = ended;
      } in
      elim (Bool-cases r.done_after) [
        | inl stop ↦ rw stop (inl stands, (0, refl))
        | inr go ↦ elim (Bool-cases r.done_waiting) [
          | inl stop ↦ rw (go, stop) (inl stands, (1, refl))
          | inr on ↦
              let (tidy, (n, first)) = later ended in
              rw (go, on) (tidy, (suc n, ap (λ ws. wait_for backoff r.jitter ∷ ws) first))
        ]
      ]

  reconnect_from_lem :
      (backoff : ℕ) (rounds : List (Round E Candidate)) (p : Process) (a t : ℕ)
      → p ≡ idle a t
      → let l = reconnect_from c role backoff rounds p in
        IsTidy E c role (a + length rounds) (t + length rounds) l.process
        × AreFirst l.waits (waits_from backoff (map (λ r. r.jitter) rounds))
  unfolding reconnect_from
  reconnect_from_lem backoff [] p a t e = (inl (at_most a t p e 0), (0, refl))
  reconnect_from_lem backoff (r ∷ rs) p a t e = elim (Bool-cases r.done_before) [
    | inl stop ↦ rw stop (inl (at_most a t p e (suc (length rs))), (0, refl))
    | inr go ↦
        let made = side_transport (transport_side role) r.calls in
        let da = left_agents r.calls.last_call r.calls.connected in
        let dt = left_transports made r.calls.last_call r.calls.connected in
        let few = left_agents-le made r.calls.last_call r.calls.connected in
        let few' = left_transports-le made r.calls.last_call r.calls.connected in
        let n = length rs in
        let o = run_once c role r.calls p in
        let stands : Stands (IsUp c role) (idle (a + da) (t + dt)) o o.result =
          subst
            (λ q.
              Stands (IsUp c role) (idle (a + da) (t + dt)) (run_once c role r.calls q)
                (run_once c role r.calls q).result)
            (sym e) (run_once-Stands c role r.calls v a t) in
        rw go (
          after_run_lem backoff r o o.result _ (map (λ r. r.jitter) rs) (a + da) (t + dt)
            (a + suc n) (t + suc n) (omega (arith, few)) (omega (arith, few')) stands
            λ ended.
              let (tidy, first) =
                reconnect_from_lem (next_backoff backoff) rs o.process (a + da) (t + dt) ended in
              (
                IsTidy-weaken E c role (a + da + n) (t + dt + n) (a + suc n) (t + suc n) _
                    (omega (arith, few)) (omega (arith, few')) tidy,
                first,
              ))
  ]

  -- However many rounds the loop makes, whatever fails in them and wherever the context ends: it
  -- stands between two sessions, with no connection and no socket open and at most one agent and
  -- one QUIC transport left of each round, or with one session that is up; and its waits are a
  -- beginning of those of the backoff.
  pub run_reconnect_loop-IsTidy :
      (rounds : List (Round E Candidate))
      → let l = run_reconnect_loop c role rounds in
        IsTidy E c role (length rounds) (length rounds) l.process
        × AreFirst l.waits (reconnect_waits (map (λ r. r.jitter) rounds))
  unfolding run_reconnect_loop reconnect_waits
  run_reconnect_loop-IsTidy rounds =
      let (tidy, first) = reconnect_from_lem second rounds (idle 0 0) 0 0 refl in
      (
        IsTidy-weaken E c role (0 + length rounds) (0 + length rounds) (length rounds)
            (length rounds) _ (omega arith) (omega arith) tidy,
        first,
      )
