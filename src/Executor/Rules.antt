-- ===== src/Executor/Rules.antt =====
-- Reasoning about a program from the stage in which it starts: what holds of the value and the stage
-- where it returns, and of the failure and the stage where it raises.
use engineering_worker_pool.Base.{
  ◌≡◌, refl, subst, Bool, true, false, Option, none, some, Text, arith, if◌then◌else◌,
}
use engineering_worker_pool.Executor.Run.{
  Run, returns, raises, does, ◌>>=◌, ◌>>◌, ask_quietly, Event, need, need_some, read, ask, attempt,
  finally, log, outcome, Action, releases_lock, Failure, Code, Reply, answered, raised,
}
use engineering_worker_pool.Executor.Order.{reached}
use engineering_worker_pool.Executor.Protocol.{Stage, next_stage, next_event, broken_by, accepts}

-- A program that calls nothing.
abbrev pub IsQuiet {ℓ} : {A : Type ℓ} → Run A → Type 0
IsQuiet (returns a) = Unit {0}
IsQuiet (raises e) = Unit {0}
IsQuiet (does x r) = ⊥

pub bind-IsQuiet {ℓ κ} :
    {A : Type ℓ} {B : Type κ} (m : Run A) (k : A → Run B)
    → IsQuiet m
    → ((a : A) → IsQuiet (k a))
    → IsQuiet (m >>= k)
unfolding ◌>>=◌
bind-IsQuiet (returns a) k m h = h a
bind-IsQuiet (raises e) k m h = tt
bind-IsQuiet (does x r) k m h = elim m [ ]

pub need-IsQuiet : (b : Bool) (c : Code) → IsQuiet (need b c)
need-IsQuiet true c = tt
need-IsQuiet false c = tt

pub need_some-IsQuiet {ℓ} : {A : Type ℓ} (a : Option A) (c : Code) → IsQuiet (need_some a c)
need_some-IsQuiet none c = tt
need_some-IsQuiet (some a) c = tt

pub read-IsQuiet {ℓ} : {A : Type ℓ} (r : Reply A) → IsQuiet (read r)
read-IsQuiet (answered a) = tt
read-IsQuiet (raised e) = tt

pub if-IsQuiet {ℓ} :
    {A : Type ℓ} (b : Bool) (m n : Run A) → IsQuiet m → IsQuiet n → IsQuiet (if b then m else n)
if-IsQuiet true m n h k = h
if-IsQuiet false m n h k = k

pub answered_inj {ℓ} : {A : Type ℓ} {a b : A} → answered a ≡ answered b → a ≡ b
answered_inj n = cc

pub IsQuiet-raised {ℓ} :
    {A : Type ℓ} (m : Run A) (e : Failure) → IsQuiet m → outcome m ≡ raised e → m ≡ raises e
unfolding outcome
IsQuiet-raised (returns a) e q h = absurd (cc)
IsQuiet-raised (raises f) e q h = cc
IsQuiet-raised (does x r) e q h = elim q [ ]

pub IsQuiet-answered {ℓ} :
    {A : Type ℓ} (m : Run A) (a : A) → IsQuiet m → outcome m ≡ answered a → m ≡ returns a
unfolding outcome
IsQuiet-answered (returns b) a q h = cc
IsQuiet-answered (raises f) a q h = absurd (cc)
IsQuiet-answered (does x r) a q h = elim q [ ]

module _ (fenced : Bool) (effect_of : Text → Text) where
  unfoldable pub Ends {ℓ} :
      {A : Type ℓ} → Run A → Stage → (A → Stage → Type 0) → (Failure → Stage → Type 0) → Type 0
  Ends (returns a) s Q E = Q a s
  Ends (raises e) s Q E = E e s
  Ends (does x r) s Q E = (t : Stage) × (next_event fenced effect_of s x ≡ some t) × Ends r t Q E

  pub Ends-bind {ℓ κ} :
      {A : Type ℓ} {B : Type κ} (m : Run A) (k : A → Run B) (s : Stage) (P : A → Stage → Type 0)
      (Q : B → Stage → Type 0) (E : Failure → Stage → Type 0)
      → Ends m s P E
      → ((a : A) (t : Stage) → P a t → Ends (k a) t Q E)
      → Ends (m >>= k) s Q E
  unfolding Ends ◌>>=◌
  Ends-bind (returns a) k s P Q E h f = f a s h
  Ends-bind (raises e) k s P Q E h f = h
  Ends-bind (does x r) k s P Q E (t, n, h) f = (t, n, Ends-bind r k t P Q E h f)

  pub Ends-attempt {ℓ} :
      {A : Type ℓ} (m : Run A) (k : Failure → Run A) (s : Stage) (Q : A → Stage → Type 0)
      (E F : Failure → Stage → Type 0)
      → Ends m s Q F
      → ((e : Failure) (t : Stage) → F e t → Ends (k e) t Q E)
      → Ends (attempt m k) s Q E
  unfolding attempt Ends
  Ends-attempt (returns a) k s Q E F h f = h
  Ends-attempt (raises e) k s Q E F h f = f e s h
  Ends-attempt (does x r) k s Q E F (t, n, h) f = (t, n, Ends-attempt r k t Q E F h f)

  pub Ends-finally {ℓ} :
      {A : Type ℓ} (m : Run A) (s : Stage) (Q : A → Stage → Type 0) (E : Failure → Stage → Type 0)
      → Ends m s Q E
      → Ends (finally m releases_lock) s Q E
  unfolding finally next_event next_stage Ends
  Ends-finally (returns a) s Q E h = (s, refl, h)
  Ends-finally (raises e) s Q E h = (s, refl, h)
  Ends-finally (does x r) s Q E (t, n, h) = (t, n, Ends-finally r t Q E h)

  pub Ends-quiet {ℓ} :
      {A : Type ℓ} (m : Run A) (s : Stage) (Q : A → Stage → Type 0) (E : Failure → Stage → Type 0)
      → IsQuiet m
      → ((a : A) → Q a s)
      → ((e : Failure) → E e s)
      → Ends m s Q E
  unfolding Ends
  Ends-quiet (returns a) s Q E m h k = h a
  Ends-quiet (raises e) s Q E m h k = k e
  Ends-quiet (does x r) s Q E m h k = elim m [ ]

  -- A quiet program, and then another.
  pub Ends-after {ℓ κ} :
      {A : Type ℓ} {B : Type κ} (m : Run A) (k : A → Run B) (s : Stage) (Q : B → Stage → Type 0)
      (E : Failure → Stage → Type 0)
      → IsQuiet m
      → ((e : Failure) → E e s)
      → ((a : A) → Ends (k a) s Q E)
      → Ends (m >>= k) s Q E
  unfolding Ends ◌>>=◌
  Ends-after (returns a) k s Q E m e h = h a
  Ends-after (raises f) k s Q E m e h = e f
  Ends-after (does x r) k s Q E m e h = elim m [ ]

  -- A call, and then a program.
  pub Ends-ask {ℓ κ} :
      {A : Type ℓ} {B : Type κ} (x : Action) (r : Reply A) (k : A → Run B) (s t : Stage)
      (Q : B → Stage → Type 0) (E : Failure → Stage → Type 0)
      → next_stage fenced effect_of s x ≡ some t
      → ((e : Failure) → E e (broken_by s x t))
      → ((a : A) → Ends (k a) t Q E)
      → Ends (ask x r >>= k) s Q E
  unfolding Ends next_event ◌>>=◌
  Ends-ask x (answered a) k s t Q E n e h = (t, n, h a)
  Ends-ask x (raised f) k s t Q E n e h = (broken_by s x t, rw (next_event, n) refl, e f)

  -- A call whose answer is known, and then a program.
  pub Ends-ask_known {ℓ κ} :
      {A : Type ℓ} {B : Type κ} (x : Action) (r : Reply A) (k : A → Run B) (s t : Stage)
      (Q : B → Stage → Type 0) (E : Failure → Stage → Type 0)
      → next_stage fenced effect_of s x ≡ some t
      → ((e : Failure) → E e (broken_by s x t))
      → ((a : A) → r ≡ answered a → Ends (k a) t Q E)
      → Ends (ask x r >>= k) s Q E
  unfolding Ends next_event ◌>>=◌
  Ends-ask_known x (answered a) k s t Q E n e h = (t, n, h a refl)
  Ends-ask_known x (raised f) k s t Q E n e h = (broken_by s x t, rw (next_event, n) refl, e f)

  -- The end of a program.
  pub Ends-returns {ℓ} :
      {A : Type ℓ} (a : A) (s : Stage) (Q : A → Stage → Type 0) (E : Failure → Stage → Type 0)
      → Q a s
      → Ends (returns a) s Q E
  unfolding Ends
  Ends-returns a s Q E h = h

  pub Ends-raises {ℓ} :
      {A : Type ℓ} (e : Failure) (s : Stage) (Q : A → Stage → Type 0) (E : Failure → Stage → Type 0)
      → E e s
      → Ends (raises e) s Q E
  unfolding Ends
  Ends-raises e s Q E h = h

  pub Ends-does {ℓ} :
      {A : Type ℓ} (x : Event) (m : Run A) (s t : Stage) (Q : A → Stage → Type 0)
      (E : Failure → Stage → Type 0)
      → next_event fenced effect_of s x ≡ some t
      → Ends m t Q E
      → Ends (does x m) s Q E
  unfolding Ends
  Ends-does x m s t Q E n h = (t, n, h)

  -- A call whose exception is passed over, and then a program.
  pub Ends-ask_quietly {ℓ} :
      {B : Type ℓ} (x : Action) (r : Reply (Unit {0})) (m : Run B) (s t : Stage)
      (Q : B → Stage → Type 0) (E : Failure → Stage → Type 0)
      → next_stage fenced effect_of s x ≡ some t
      → broken_by s x t ≡ t
      → Ends m t Q E
      → Ends (ask_quietly x r >> m) s Q E
  unfolding Ends next_event ◌>>=◌
  Ends-ask_quietly x (answered a) m s t Q E n b h = (t, n, h)
  Ends-ask_quietly x (raised f) m s t Q E n b h = (t, rw (next_event, n, b) refl, h)

  -- A report whose exception is passed over, and then a failure.
  pub Ends-report {ℓ} :
      {A : Type ℓ} (x : Action) (r : Reply (Unit {0})) (e : Failure) (s t : Stage)
      (Q : A → Stage → Type 0) (E : Failure → Stage → Type 0)
      → next_stage fenced effect_of s x ≡ some t
      → broken_by s x t ≡ t
      → E e t
      → Ends (ask_quietly x r >> raises e) s Q E
  Ends-report x r e s t Q E n b h =
      Ends-ask_quietly x r (raises e) s t Q E n b (Ends-raises e t Q E h)

  pub Ends-if {ℓ} :
      {A : Type ℓ} (b : Bool) (m n : Run A) (s : Stage) (Q : A → Stage → Type 0)
      (E : Failure → Stage → Type 0)
      → Ends m s Q E
      → Ends n s Q E
      → Ends (if b then m else n) s Q E
  Ends-if true m n s Q E h k = h
  Ends-if false m n s Q E h k = k

  -- A call that ends a program.
  pub Ends-last {ℓ} :
      {A : Type ℓ} (x : Action) (r : Reply A) (s t : Stage) (Q : A → Stage → Type 0)
      (E : Failure → Stage → Type 0)
      → next_stage fenced effect_of s x ≡ some t
      → ((e : Failure) → E e (broken_by s x t))
      → ((a : A) → Q a t)
      → Ends (ask x r) s Q E
  unfolding Ends next_event
  Ends-last x (answered a) s t Q E n e h = (t, n, h a)
  Ends-last x (raised f) s t Q E n e h = (broken_by s x t, rw (next_event, n) refl, e f)

  pub Ends-accepts {ℓ} :
      {A : Type ℓ} (m : Run A) (s : Stage) (Q : A → Stage → Type 0) (E : Failure → Stage → Type 0)
      → Ends m s Q E
      → accepts fenced effect_of s (log m) ≡ true
  unfolding log accepts Ends
  Ends-accepts (returns a) s Q E h = refl
  Ends-accepts (raises e) s Q E h = refl
  Ends-accepts (does x r) s Q E (t, n, h) = ground (arith, n, Ends-accepts r t Q E h)

  pub Ends-outcome {ℓ} :
      {A : Type ℓ} (m : Run A) (a : A) (s : Stage) (Q : A → Stage → Type 0)
      (E : Failure → Stage → Type 0)
      → Ends m s Q E
      → outcome m ≡ answered a
      → (t : Stage) × (reached fenced effect_of s (log m) ≡ some t) × Q a t
  unfolding log outcome reached Ends
  Ends-outcome (returns b) a s Q E h n = (s, refl, subst (λ x. Q x s) (answered_inj n) h)
  Ends-outcome (raises e) a s Q E h n = absurd (cc)
  Ends-outcome (does x r) a s Q E (t, m, h) n =
      let found = Ends-outcome r a t Q E h n in (found.0, rw (m, reached) found.1, found.2)
