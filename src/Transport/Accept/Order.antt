-- ===== src/Transport/Accept/Order.antt =====
-- What the fan-in of `acceptLoop` (internal/transport/transport.go) keeps.
use nl_punch.Prelude.{
  ℕ, ◌<◌, [], ◌∷◌, ◌++◌, List, append_assoc, append-nil, nat_eq, string_eq, ◌==◌, ==_iff, ltb, ◌&&◌,
  not, true, false, if◌then◌else◌, length, ◌≡◌, ◌≢◌, refl, sym, ap, ◌∙◌, Bool-cases, inl, inr,
}
use nl_punch.Transport.Accept.{
  AcceptResult, stream, failure, Loop, running, holds, ended, Hub, update, report, accept_size,
  Step, gets, sends, gives_up, errs, takes, closes, seals, Reach, at_start, later,
}

-- The streams of connection `i`, in their order.
abbrev pub streams_of : ℕ → List AcceptResult → List ℕ
streams_of i [] = []
streams_of i (stream j id ∷ rs) = if j == i then id ∷ streams_of i rs else streams_of i rs
streams_of i (failure j ∷ rs) = streams_of i rs

-- The stream that a loop has and has not sent.
abbrev pub pending : Loop → List ℕ
pending running = []
pending (holds id) = id ∷ []
pending (ended lost) = lost

streams_of-append :
    (i : ℕ) (rs ss : List AcceptResult)
    → streams_of i (rs ++ ss) ≡ streams_of i rs ++ streams_of i ss
streams_of-append i [] ss = refl
streams_of-append i (stream j id ∷ rs) ss = elim (Bool-cases (j == i)) [
  | inl same ↦ rw same (ap (λ s. id ∷ s) (streams_of-append i rs ss))
  | inr apart ↦ rw apart (streams_of-append i rs ss)
]
streams_of-append i (failure j ∷ rs) ss = streams_of-append i rs ss

record Inv (n : ℕ) (s : Hub) : Type 0 where
  pub quiet : s.sealed ≡ true → (i : ℕ) → i < n → (lost : List ℕ) × (s.loops i ≡ ended lost)
  pub ordered :
      (i : ℕ)
      → (streams_of i s.taken ++ streams_of i s.channel) ++ pending (s.loops i)
        ≡ streams_of i s.accepted

-- No loop that still runs can find the channel closed.
not_sealed :
    {n : ℕ} {s : Hub} (i : ℕ) (l : Loop)
    → Inv n s
    → i < n
    → s.loops i ≡ l
    → ((lost : List ℕ) → l ≢ ended lost)
    → s.sealed ≡ false
not_sealed {n} {s} i l v range at live = elim (Bool-cases s.sealed) [
  | inr open_still ↦ open_still
  | inl shut ↦ let (lost, e) = v.quiet shut i range in absurd (live lost (sym at ∙ e))
]

streams_of_one : (i j id : ℕ) → streams_of j (stream i id ∷ []) ≡ (if i == j then id ∷ [] else [])
streams_of_one i j id = refl

-- A loop that goes on, and one whose stream moves into the channel.
abbrev IsOrdered : Hub → ℕ → Type 0
IsOrdered s j =
    (streams_of j s.taken ++ streams_of j s.channel) ++ pending (s.loops j)
    ≡ streams_of j s.accepted

module _ {n : ℕ} {s : Hub} (i : ℕ) (l : Loop) (v : Inv n s) (range : i < n)
    (at : s.loops i ≡ l) where
  still_quiet :
      ((lost : List ℕ) → l ≢ ended lost)
      → (loops : ℕ → Loop) → s.sealed ≡ true
      → (j : ℕ) → j < n
      → (lost : List ℕ) × (loops j ≡ ended lost)
  still_quiet live loops shut = cc (sym shut ∙ not_sealed i l v range at live)

  -- The loop changes, and what it has not sent stays.
  keeps :
      (l' : Loop) (j : ℕ)
      → pending l' ≡ pending l
      → (streams_of j s.taken ++ streams_of j s.channel) ++ pending (update s.loops i l' j)
        ≡ streams_of j s.accepted
  keeps l' j same = elim (Bool-cases (i == j)) [
    | inr apart ↦ rw apart (v.ordered j)
    | inl here ↦
        rw (here, same)
          (ap (λ k. (streams_of j s.taken ++ streams_of j s.channel) ++ pending k)
              (sym at ∙ ap s.loops ((==_iff i j).0 here))
            ∙ v.ordered j)
  ]

  got :
      (id j : ℕ)
      → pending l ≡ []
      → (streams_of j s.taken ++ streams_of j s.channel) ++ pending (update s.loops i (holds id) j)
        ≡ streams_of j (s.accepted ++ stream i id ∷ [])
  got id j idle = elim (Bool-cases (i == j)) [
    | inr apart ↦
        rw
          (
            streams_of-append j s.accepted (stream i id ∷ []),
            apart,
            append-nil (streams_of j s.accepted),
          )
          (v.ordered j)
    | inl here ↦
        let none_left = ap pending (ap s.loops (sym ((==_iff i j).0 here)) ∙ at) ∙ idle in
        let all = streams_of j s.taken ++ streams_of j s.channel in
        rw (streams_of-append j s.accepted (stream i id ∷ []), here)
          (ap (λ k. k ++ id ∷ [])
            (sym (append-nil all) ∙ ap (λ k. all ++ k) (sym none_left) ∙ v.ordered j))
  ]

  sent :
      (id j : ℕ)
      → pending l ≡ id ∷ []
      → (streams_of j s.taken ++ streams_of j (s.channel ++ stream i id ∷ []))
          ++ pending (update s.loops i running j)
        ≡ streams_of j s.accepted
  sent id j held = elim (Bool-cases (i == j)) [
    | inr apart ↦
        rw
          (
            streams_of-append j s.channel (stream i id ∷ []),
            apart,
            append-nil (streams_of j s.channel),
          )
          (v.ordered j)
    | inl here ↦
        let one = ap pending (ap s.loops (sym ((==_iff i j).0 here)) ∙ at) ∙ held in
        let taken = streams_of j s.taken in
        let waiting = streams_of j s.channel in
        rw (streams_of-append j s.channel (stream i id ∷ []), here)
          (append-nil (taken ++ (waiting ++ id ∷ []))
            ∙ sym (append_assoc taken waiting (id ∷ []))
            ∙ ap (λ k. (taken ++ waiting) ++ k) (sym one)
            ∙ v.ordered j)
  ]

streams_of-report : (s : Hub) (i j : ℕ) → streams_of j (report s i) ≡ streams_of j s.channel
streams_of-report s i j = elim (Bool-cases (not s.closed && ltb (length s.channel) accept_size)) [
  | inl sent ↦
      rw (sent, streams_of-append j s.channel (failure i ∷ []))
        (append-nil (streams_of j s.channel))
  | inr dropped ↦ rw dropped refl
]

takes_ordered :
    (j : ℕ) (taken channel rest : List AcceptResult) (r : AcceptResult)
    → channel ≡ r ∷ rest
    → streams_of j (taken ++ r ∷ []) ++ streams_of j rest
      ≡ streams_of j taken ++ streams_of j channel
takes_ordered j taken channel rest r at =
    ap (λ k. k ++ streams_of j rest) (streams_of-append j taken (r ∷ []))
    ∙ append_assoc (streams_of j taken) (streams_of j (r ∷ [])) (streams_of j rest)
    ∙ ap (λ k. streams_of j taken ++ k)
        (sym (streams_of-append j (r ∷ []) rest) ∙ ap (streams_of j) (sym at))

Step-Inv : {n : ℕ} {s t : Hub} → Step n s t → Inv n s → Inv n t
Step-Inv {s} (gets i id range at) v = record {
  quiet = still_quiet i running v range at (λ lost e. cc e) (update s.loops i (holds id));
  ordered = λ j. got i running v range at id j refl;
}
Step-Inv {s} (sends i id range at room) v = record {
  quiet = still_quiet i (holds id) v range at (λ lost e. cc e) (update s.loops i running);
  ordered = λ j. sent i (holds id) v range at id j refl;
}
Step-Inv {s} (gives_up i id range at) v = record {
  quiet = still_quiet i (holds id) v range at (λ lost e. cc e) (update s.loops i (ended (id ∷ [])));
  ordered = λ j. keeps i (holds id) v range at (ended (id ∷ [])) j refl;
}
Step-Inv {s} (errs i range at) v = record {
  quiet = still_quiet i running v range at (λ lost e. cc e) (update s.loops i (ended []));
  ordered = λ j.
      ap (λ k. (streams_of j s.taken ++ k) ++ pending (update s.loops i (ended []) j))
        (streams_of-report s i j)
      ∙ keeps i running v range at (ended []) j refl;
}
Step-Inv {s} (takes r rest at) v = record {
  quiet = v.quiet;
  ordered = λ j.
      ap (λ k. k ++ pending (s.loops j)) (takes_ordered j s.taken s.channel rest r at)
      ∙ v.ordered j;
}
Step-Inv closes v = record { quiet = v.quiet; ordered = v.ordered }
Step-Inv (seals shut done) v = record { quiet = λ e. done; ordered = v.ordered }

Reach-Inv : {n : ℕ} {s : Hub} → Reach n s → Inv n s
Reach-Inv at_start = record { quiet = λ e. cc e; ordered = λ j. refl }
Reach-Inv (later r st) = Step-Inv st (Reach-Inv r)

-- In every reachable state, a loop that has not returned finds the channel open, so that its send
-- cannot panic.
pub sends-open :
    (n : ℕ) (s : Hub) (i : ℕ)
    → Reach n s
    → i < n
    → ((lost : List ℕ) → s.loops i ≢ ended lost)
    → s.sealed ≡ false
sends-open n s i r range live = not_sealed i (s.loops i) (Reach-Inv r) range refl live

-- In every reachable state, the streams of each connection that have been taken out of the channel
-- are a beginning of those that the connection has accepted, in the same order: none is taken twice,
-- none is skipped. The rest of them waits in the channel or in the connection's loop.
pub taken_prefix :
    (n : ℕ) (s : Hub) (i : ℕ)
    → Reach n s
    → streams_of i s.taken ++ (streams_of i s.channel ++ pending (s.loops i))
      ≡ streams_of i s.accepted
taken_prefix n s i r =
    sym (append_assoc (streams_of i s.taken) (streams_of i s.channel) (pending (s.loops i)))
    ∙ (Reach-Inv r).ordered i
