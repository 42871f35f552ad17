-- ===== src/Kernel/Mutex/Laws.antt =====
-- The mutex over every sequence of calls.
use rv32umos.Base.{
  contains, contains-append, ℕ, ◌≡◌, ◌≢◌, refl, sym, ap, ◌∙◌, arith, Bool, true, false, List, [],
  ◌∷◌, Option, none, some, if◌then◌else◌, update, Bool-cases, inl, inr, ne→==, eq→==,
}
use rv32umos.Kernel.Thread.{ThreadState}
use rv32umos.Kernel.Mutex.{Mutex, States, new_mutex, acquire, is_owner, wake_all, is_empty, release}

abbrev pub is_blocked : ThreadState → Bool
is_blocked ThreadState.blocked = true
is_blocked s = false

wake_all_lem :
    (states : States) (ts : List ℕ) (t : ℕ)
    → wake_all states ts t ≡ (if contains ts t then ThreadState.ready else states t)
unfolding wake_all
wake_all_lem states [] t = refl
wake_all_lem states (x ∷ xs) t =
    ground (arith, wake_all_lem (update states x ThreadState.ready) xs t)

-- Calls of the mutex, and what else happens to threads that are not blocked.
pub data Step : Mutex × States → Mutex × States → Type 0 where
  acquires :
      (m : Mutex) (states : States) (t : ℕ)
      → states t ≡ ThreadState.running
      → Step (m, states) ((acquire m states t).0, (acquire m states t).1)
  releases :
      (m : Mutex) (states : States) (t : ℕ)
      → Step (m, states) ((release m states t).0, (release m states t).1)
  schedules :
      (m : Mutex) (states : States) (t : ℕ) (s : ThreadState)
      → is_blocked (states t) ≡ false
      → is_blocked s ≡ false
      → Step (m, states) (m, update states t s)

-- Reached from a new mutex and threads none of which is blocked.
pub data Reachable : Mutex × States → Type 0 where
  start :
      (states : States) → ((t : ℕ) → is_blocked (states t) ≡ false) → Reachable (new_mutex, states)
  later : {c c' : Mutex × States} → Reachable c → Step c c' → Reachable c'

-- The blocked threads are the waiting ones, a free mutex has no owner and no waiting thread, and a
-- locked one has an owner.
pub record IsMutex (c : Mutex × States) : Type 0 where
  pub waiting : (t : ℕ) → is_blocked (c.1 t) ≡ contains c.0.wait_queue t
  pub free : c.0.locked ≡ false → (c.0.owner ≡ none) × (c.0.wait_queue ≡ [])
  pub owned : c.0.locked ≡ true → (t : ℕ) × (c.0.owner ≡ some t)

acquire-IsMutex :
    (m : Mutex) (states : States) (t : ℕ)
    → IsMutex (m, states)
    → IsMutex ((acquire m states t).0, (acquire m states t).1)
unfolding acquire
acquire-IsMutex m states t h = elim (Bool-cases m.locked) [
  | inl held ↦ simp held (record {
    waiting = λ j. ground (arith, contains-append m.wait_queue t j, h.waiting j);
    free = λ q. cc;
    owned = λ q. h.owned held;
  })
  | inr free ↦ simp free (record { waiting = h.waiting; free = λ q. cc; owned = λ q. (t, refl) })
]

wake_all-blocked :
    (states : States) (ts : List ℕ) (j : ℕ)
    → is_blocked (states j) ≡ contains ts j
    → is_blocked (wake_all states ts j) ≡ false
wake_all-blocked states ts j h = rw (wake_all_lem states ts j) (elim (Bool-cases (contains ts j)) [
  | inl yes_it ↦ rw yes_it refl
  | inr no_it ↦ rw no_it (h ∙ no_it)
])

is_empty-eq : (ts : List ℕ) → is_empty ts ≡ true → ts ≡ []
unfolding is_empty
is_empty-eq [] h = refl
is_empty-eq (t ∷ ts) h = cc

release-IsMutex :
    (m : Mutex) (states : States) (t : ℕ)
    → IsMutex (m, states)
    → IsMutex ((release m states t).0, (release m states t).1)
unfolding release
release-IsMutex m states t h = elim (Bool-cases (is_owner m.owner t)) [
  | inr other ↦ rw other h
  | inl own ↦ rw own (elim (Bool-cases (is_empty m.wait_queue)) [
    | inl empty ↦ rw empty (record {
      waiting = h.waiting;
      free = λ q. (refl, is_empty-eq m.wait_queue empty);
      owned = λ q. cc;
    })
    | inr some_wait ↦ rw some_wait (record {
      waiting = λ j. wake_all-blocked states m.wait_queue j (h.waiting j);
      free = λ q. (refl, refl);
      owned = λ q. cc;
    })
  ])
]

schedule-IsMutex :
    (m : Mutex) (states : States) (t : ℕ) (s : ThreadState)
    → is_blocked (states t) ≡ false
    → is_blocked s ≡ false
    → IsMutex (m, states)
    → IsMutex (m, update states t s)
schedule-IsMutex m states t s hb hs h = record {
  waiting = λ j. ground (arith, h.waiting j, h.waiting t);
  free = h.free;
  owned = h.owned;
}

Step-IsMutex : {c c' : Mutex × States} → Step c c' → IsMutex c → IsMutex c'
Step-IsMutex (acquires m states t r) h = acquire-IsMutex m states t h
Step-IsMutex (releases m states t) h = release-IsMutex m states t h
Step-IsMutex (schedules m states t s hb hs) h = schedule-IsMutex m states t s hb hs h

-- After any sequence of calls of `acquire` by running threads, calls of `release` by any threads,
-- and changes of state of threads that are not blocked, the blocked threads are exactly those in the
-- mutex's queue, a locked mutex has an owner, and a free one has no owner and an empty queue, so
-- that no thread is left blocked on it.
pub Reachable-IsMutex : (c : Mutex × States) → Reachable c → IsMutex c
Reachable-IsMutex c (start states h) = record {
  waiting = h;
  free = λ q. (refl, refl);
  owned = λ q. cc;
}
Reachable-IsMutex c' (later r s) = Step-IsMutex s (Reachable-IsMutex _ r)

is_owner-true : (o : Option ℕ) (t : ℕ) → o ≡ some t → is_owner o t ≡ true
unfolding is_owner
is_owner-true o t e = rw e (eq→== t t refl)

is_owner-false : (o : Option ℕ) (t : ℕ) → o ≢ some t → is_owner o t ≡ false
unfolding is_owner
is_owner-false none t n = refl
is_owner-false (some a) t n = ne→== t a (λ q. n (ap some (sym q)))

-- Release by another thread than the owner fails and changes nothing.
pub release-other :
    (m : Mutex) (states : States) (t : ℕ)
    → m.owner ≢ some t
    → release m states t ≡ (m, states, false)
unfolding release
release-other m states t n = rw (is_owner-false m.owner t n)

waiting-none : (ts : List ℕ) (j : ℕ) → is_empty ts ≡ true → contains ts j ≡ false
waiting-none ts j e = rw (is_empty-eq ts e)

-- Release by the owner succeeds, frees the mutex, makes every waiting thread ready and leaves the
-- other threads as they were.
pub release-owner :
    (m : Mutex) (states : States) (t : ℕ)
    → m.owner ≡ some t
    → let (m', states', done) = release m states t in
      (m'.locked ≡ false)
      × (m'.owner ≡ none)
      × (done ≡ true)
      × ((j : ℕ) → states' j ≡ (if contains m.wait_queue j then ThreadState.ready else states j))
unfolding release
release-owner m states t e =
    rw (is_owner-true m.owner t e) (elim (Bool-cases (is_empty m.wait_queue)) [
      | inl empty ↦ rw empty (refl, refl, refl, λ j. rw (waiting-none m.wait_queue j empty))
      | inr some_wait ↦ rw some_wait (refl, refl, refl, λ j. wake_all_lem states m.wait_queue j)
    ])
