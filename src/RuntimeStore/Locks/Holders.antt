-- ===== src/RuntimeStore/Locks/Holders.antt =====
-- Who holds a lock, over any sequence of lock operations.
use ai_planed_map.Prelude.{
  ℕ, ◌+◌, ◌≤◌, ◌<◌, ◌≡◌, refl, ◌≢◌, some, true, false, List, [], ◌∷◌, arith, sym, ◌∙◌, String,
  string_eq, ltb, Bool-cases, Option-cases, inl, inr, ◌==◌, list_eq, list_beq, list_beq_iff, nat_eq,
  beq_ne, ◌⊎◌, ◌&&◌,
}
use ai_planed_map.Prelude.Dict.{get, get-put, get-remove}
use ai_planed_map.Prelude.Decimal.{Text}
use ai_planed_map.RuntimeStore.Locks.{
  Locks, fenced, is_held, has_token, acquire_lock, release_lock, renew_lock, is_lock_owner,
}
use ai_planed_map.RuntimeStore.Locks.Fencing.{fenced_injective}

pub data LockOp : Type 0 where
  acquire : (name : String) (ttl : ℕ) (owner : Text) (now : ℕ) → LockOp
  release : (name : String) (token : Text) → LockOp
  renew : (name : String) (token : Text) (ttl now : ℕ) → LockOp

unfoldable pub step : LockOp → Locks → Locks
step (acquire name ttl owner now) s = (acquire_lock name ttl owner now s).1
step (release name token) s = (release_lock name token s).1
step (renew name token ttl now) s = (renew_lock name token ttl now s).1

unfoldable pub run : List LockOp → Locks → Locks
run [] s = s
run (op ∷ ops) s = run ops (step op s)

step_fences : (op : LockOp) (name : String) (s : Locks) → s.fences name ≤ (step op s).fences name
unfolding step acquire_lock release_lock renew_lock
step_fences (acquire other ttl owner now) name s = ground (arith, string_eq.beq_iff other name)
step_fences (release other token) name s = ground arith
step_fences (renew other token ttl now) name s = ground arith

run_fences :
    (ops : List LockOp) (name : String) (s : Locks) → s.fences name ≤ (run ops s).fences name
unfolding run
run_fences [] name s = omega arith
run_fences (op ∷ ops) name s = omega (arith, step_fences op name s, run_fences ops name (step op s))

-- The fence counter of `name`, and the fence of a lock that is held on it, are above `f`.
record Beyond (f : ℕ) (name : String) (s : Locks) : Type 0 where
  counter : f < s.fences name
  held :
      (token : Text) (expires : ℕ)
      → get name s.locks ≡ some (token, expires)
      → (g : ℕ) × (owner : Text) × (token ≡ fenced g owner) × (f < g)

module _ (f : ℕ) (name : String) where
  acquire-Beyond :
      (other : String) (ttl : ℕ) (owner : Text) (now : ℕ) (s : Locks)
      → Beyond f name s
      → Beyond f name (acquire_lock other ttl owner now s).1
  unfolding acquire_lock
  acquire-Beyond other ttl owner now s h = elim (Bool-cases (is_held now (get other s.locks))) [
    | inl taken ↦ rw taken h
    | inr free ↦ rw free (record {
      counter = ground (arith, h.counter, string_eq.beq_iff other name);
      held = λ token expires e. elim (Bool-cases (other == name)) [
        | inl same ↦ (
          s.fences other + 1,
          owner,
          ground (arith, get-put other name (fenced (s.fences other + 1) owner, now + ttl) s.locks),
          ground (arith, h.counter, string_eq.beq_iff other name),
        )
        | inr apart ↦ h.held token expires (
            ground
              (arith, get-put other name (fenced (s.fences other + 1) owner, now + ttl) s.locks))
      ];
    })
  ]

  release-Beyond :
      (other : String) (token : Text) (s : Locks)
      → Beyond f name s
      → Beyond f name (release_lock other token s).1
  unfolding release_lock
  release-Beyond other token s h = elim (Bool-cases (has_token token (get other s.locks))) [
    | inr foreign ↦ rw foreign h
    | inl own ↦ rw own (record {
      counter = h.counter;
      held = λ current expires e.
          h.held current expires (ground (arith, get-remove other name s.locks));
    })
  ]

  renew-Beyond :
      (other : String) (token : Text) (ttl now : ℕ) (s : Locks)
      → Beyond f name s
      → Beyond f name (renew_lock other token ttl now s).1
  unfolding renew_lock
  renew-Beyond other token ttl now s h = elim (Option-cases (get other s.locks)) [
    | inl e ↦ rw (e, has_token) h
    | inr ((current, expires), e) ↦
        rw e (elim (Bool-cases (list_beq current token && ltb now expires)) [
          | inr foreign ↦ rw foreign h
          | inl own ↦ rw own (record {
            counter = h.counter;
            held = λ text until e'. elim (Bool-cases (other == name)) [
              | inl same ↦ h.held text expires (
                  ground (
                    arith,
                    get-put other name (token, now + ttl) s.locks,
                    list_beq_iff current token,
                    string_eq.beq_iff other name,
                  ))
              | inr apart ↦
                  h.held text until (ground (arith, get-put other name (token, now + ttl) s.locks))
            ];
          })
        ])
  ]

  run-Beyond : (ops : List LockOp) (s : Locks) → Beyond f name s → Beyond f name (run ops s)
  unfolding run step
  run-Beyond [] s h = h
  run-Beyond (acquire other ttl owner now ∷ ops) s h =
      run-Beyond ops _ (acquire-Beyond other ttl owner now s h)
  run-Beyond (release other token ∷ ops) s h = run-Beyond ops _ (release-Beyond other token s h)
  run-Beyond (renew other token ttl now ∷ ops) s h =
      run-Beyond ops _ (renew-Beyond other token ttl now s h)

-- What a successful acquisition of `name` does.
record Acquired (name : String) (ttl : ℕ) (owner : Text) (now : ℕ) (token : Text) (s s' : Locks)
    : Type 0 where
  token_eq : token ≡ fenced (s.fences name + 1) owner
  stored : get name s'.locks ≡ some (token, now + ttl)
  counted : s'.fences name ≡ s.fences name + 1

acquire-Acquired :
    (name : String) (ttl : ℕ) (owner : Text) (now : ℕ) (token : Text) (s : Locks)
    → (acquire_lock name ttl owner now s).0 ≡ some token
    → Acquired name ttl owner now token s (acquire_lock name ttl owner now s).1
unfolding acquire_lock
acquire-Acquired name ttl owner now token s e = elim (Bool-cases (is_held now (get name s.locks))) [
  | inl taken ↦ absurd (ground arith)
  | inr free ↦ rw free (record {
    token_eq = ground arith;
    stored = ground (
      arith,
      get-put name name (fenced (s.fences name + 1) owner, now + ttl) s.locks,
      string_eq.beq_iff name name,
    );
    counted = ground (arith, string_eq.beq_iff name name);
  })
]

-- A holder whose token has fence `f` is out once the name is `Beyond f`.
stale-has_token :
    (f : ℕ) (owner : Text) (name : String) (s : Locks)
    → Beyond f name s
    → has_token (fenced f owner) (get name s.locks) ≡ false
stale-has_token f owner name s h = elim (Option-cases (get name s.locks)) [
  | inl e ↦ rw e
  | inr ((token, expires), e) ↦
      let (g, other, text, above) = h.held token expires e in
      rw (e, has_token)
        (beq_ne token (fenced f owner)
          (λ same. absurd (omega (arith, fenced_injective f g owner other (sym same ∙ text)))))
]

-- Once a lock has been given out again, its earlier holder can never renew or release it, nor is
-- taken for its owner, and its attempts change nothing, whatever is done to the locks in between
-- and afterwards.
pub stale_holder :
    (name : String) (ttl ttl' : ℕ) (owner owner' : Text) (now now' : ℕ) (first second : Text)
    (s : Locks) (between after : List LockOp) (later : ℕ)
    → let s₁ = (acquire_lock name ttl owner now s).1 in
      let s₂ = run between s₁ in
      let s₃ = run after (acquire_lock name ttl' owner' now' s₂).1 in
      (acquire_lock name ttl owner now s).0 ≡ some first
      → (acquire_lock name ttl' owner' now' s₂).0 ≡ some second
      → (is_lock_owner name first later s₃ ≡ false)
        × (release_lock name first s₃ ≡ (false, s₃))
        × (renew_lock name first ttl later s₃ ≡ (false, s₃))
unfolding is_lock_owner release_lock renew_lock
stale_holder name ttl ttl' owner owner' now now' first second s between after later e e' =
    let s₁ = (acquire_lock name ttl owner now s).1 in
    let s₂ = run between s₁ in
    let f = s.fences name + 1 in
    let a = acquire-Acquired name ttl owner now first s e in
    let a' = acquire-Acquired name ttl' owner' now' second s₂ e' in
    let grown : f ≤ s₂.fences name = omega (arith, a.counted, run_fences between name s₁) in
    let b : Beyond f name (acquire_lock name ttl' owner' now' s₂).1 = record {
      counter = omega (arith, a'.counted, grown);
      held = λ token expires got. (
        s₂.fences name + 1,
        owner',
        ground (arith, a'.stored, a'.token_eq),
        omega (arith, grown),
      );
    } in
    let out = stale-has_token f owner name _ (run-Beyond f name after _ b) in
    rw (a.token_eq, out) (refl, refl, refl)

-- An operation of somebody else: it is on another lock, has another token, or asks for the lock
-- before the clock reading `until`.
abbrev pub IsForeign : String → Text → ℕ → LockOp → Type 0
IsForeign name token until (acquire other ttl owner now) = (other ≢ name) ⊎ (now < until)
IsForeign name token until (release other text) = (other ≢ name) ⊎ (text ≢ token)
IsForeign name token until (renew other text ttl now) = (other ≢ name) ⊎ (text ≢ token)

abbrev pub AllForeign : String → Text → ℕ → List LockOp → Type 0
AllForeign name token until [] = Unit
AllForeign name token until (op ∷ ops) =
    IsForeign name token until op × AllForeign name token until ops

module _ (name : String) (token : Text) (until : ℕ) where
  step_foreign :
      (op : LockOp) (s : Locks)
      → IsForeign name token until op
      → get name s.locks ≡ some (token, until)
      → get name (step op s).locks ≡ some (token, until)
  unfolding step acquire_lock release_lock renew_lock
  step_foreign (acquire other ttl owner now) s foreign e = ground (
    arith,
    foreign,
    string_eq.beq_iff other name,
    get-put other name (fenced (s.fences other + 1) owner, now + ttl) s.locks,
  )
  step_foreign (release other text) s foreign e = ground (
    arith,
    foreign,
    string_eq.beq_iff other name,
    list_beq_iff token text,
    get-remove other name s.locks,
  )
  step_foreign (renew other text ttl now) s foreign e = ground (
    arith,
    foreign,
    string_eq.beq_iff other name,
    list_beq_iff token text,
    get-put other name (text, now + ttl) s.locks,
  )

  run_foreign :
      (ops : List LockOp) (s : Locks)
      → AllForeign name token until ops
      → get name s.locks ≡ some (token, until)
      → get name (run ops s).locks ≡ some (token, until)
  unfolding run
  run_foreign [] s foreign e = e
  run_foreign (op ∷ ops) s foreign e =
      run_foreign ops (step op s) foreign.1 (step_foreign op s foreign.0 e)

-- Until its time to live is over the holder of a lock is its owner, whatever others do: nobody else
-- can acquire, release or renew it.
pub holder_keeps :
    (name : String) (ttl : ℕ) (owner : Text) (now : ℕ) (token : Text) (s : Locks)
    (ops : List LockOp) (later : ℕ)
    → (acquire_lock name ttl owner now s).0 ≡ some token
    → AllForeign name token (now + ttl) ops
    → later < now + ttl
    → is_lock_owner name token later (run ops (acquire_lock name ttl owner now s).1) ≡ true
unfolding is_lock_owner
holder_keeps name ttl owner now token s ops later e foreign before =
    rw
      (run_foreign name token (now + ttl) ops (acquire_lock name ttl owner now s).1 foreign
        (acquire-Acquired name ttl owner now token s e).stored)
      (ground (arith, list_beq_iff token token))
