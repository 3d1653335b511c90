-- ===== src/Store/Operations/Availability.antt =====
-- app/store.py: a worker that `snapshot` shows as available, as `_ready` meets it.
use engineering_worker_pool.Base.{
  ◌≡◌, ◌∙◌, ap, sym, refl, Bool, true, false, not, ◌&&◌, ◌||◌, List, [], ◌∷◌, none, some, Text,
  Time, arith, find, any, select, reverse, truthy, is_text, nonempty, any-append, inl, inr,
  Option-cases,
}
use mathlib.Core.List.{reverse-cons}
use engineering_worker_pool.Store.Schema.{
  Role, completed, builder, validator, Task, Worker, Tables, Settings,
}
use engineering_worker_pool.Store.Errors.{ok}
use engineering_worker_pool.Store.Queries.{is_state, is_role, holds_active, find_worker}
use engineering_worker_pool.Store.Recovery.{rules_diverge}
use engineering_worker_pool.Store.Claim.{ready}
use engineering_worker_pool.Store.Views.{
  insert_by, order_by, task_order, open_tasks, active_task, why_idle, available,
}

module _ {ℓ} {A : Type ℓ} where
  find-none : (p : A → Bool) (xs : List A) → find p xs ≡ none → any p xs ≡ false
  unfolding find any
  find-none p [] h = refl
  find-none p (x ∷ xs) h = ground (arith, find-none p xs)

  any-insert_by :
      (p : A → Bool) (key : A → List Text) (x : A) (xs : List A)
      → any p (insert_by key x xs) ≡ (p x || any p xs)
  unfolding insert_by any
  any-insert_by p key x [] = refl
  any-insert_by p key x (y ∷ ys) = ground (arith, any-insert_by p key x ys)

  any-order_by :
      (p : A → Bool) (key : A → List Text) (xs : List A) → any p (order_by key xs) ≡ any p xs
  unfolding order_by any
  any-order_by p key [] = refl
  any-order_by p key (x ∷ xs) =
      any-insert_by p key x (order_by key xs) ∙ ap (λ b. p x || b) (any-order_by p key xs)

  any-reverse : (p : A → Bool) (xs : List A) → any p (reverse xs) ≡ any p xs
  unfolding any
  any-reverse p [] = refl
  any-reverse p (x ∷ xs) =
      ap (any p) (reverse-cons x xs)
      ∙ any-append p (reverse xs) (x ∷ [])
      ∙ ground (arith, any-reverse p xs)

  any-select_into :
      (r p q : A → Bool) (xs : List A)
      → ((x : A) → r x ≡ true → (q x ≡ true) × (p x ≡ true))
      → any p (select q xs) ≡ false
      → any r xs ≡ false
  unfolding any select
  any-select_into r p q [] f h = refl
  any-select_into r p q (x ∷ xs) f h = ground (arith, f x, any-select_into r p q xs f)

abbrev is_open : Task → Bool
is_open t = not (is_state completed t.state)

abbrev shows : Text → Task → Bool
shows worker t = truthy t.leased_by && is_text t.leased_by worker

holds_open :
    (worker : Text) (t : Task)
    → nonempty worker ≡ true
    → holds_active worker t ≡ true
    → (not (is_state completed t.state) ≡ true)
      × ((truthy t.leased_by && is_text t.leased_by worker) ≡ true)
holds_open worker t n h = ground arith

-- A worker whom the snapshot shows no open task for holds no active one.
active_task-none :
    (worker : Text) (d : Tables)
    → nonempty worker ≡ true
    → active_task worker d ≡ none
    → any (holds_active worker) d.tasks ≡ false
unfolding active_task open_tasks
active_task-none worker d n h =
    let none_open = find-none _ (reverse (open_tasks d)) (unfold active_task in h) in
    let rows = sym (any-order_by (shows worker) task_order (select is_open d.tasks)) in
    any-select_into (holds_active worker) (shows worker) is_open d.tasks
      (λ t g. holds_open worker t n g)
      (ground (arith, none_open, any-reverse (shows worker) (open_tasks d), rows))

own_role : (r : Role) → is_role r r ≡ true
own_role builder = refl
own_role validator = refl

-- A worker that the snapshot shows as available, whose row is the one under its identifier, which
-- is not empty, and whose rules do not diverge, passes the checks of a claim in its own role.
pub why_idle-ready :
    (c : Settings) (now : Time) (d : Tables) (w : Worker)
    → find_worker w.worker_id d ≡ some w
    → nonempty w.worker_id ≡ true
    → rules_diverge c w ≡ false
    → why_idle c now d w ≡ available
    → ready c w.worker_id w.role now d ≡ ok w
unfolding why_idle ready
why_idle-ready c now d w f n r h = elim (Option-cases (active_task w.worker_id d)) [
  | inl e ↦
      let free = active_task-none w.worker_id d n e in let own = own_role w.role in ground arith
  | inr (t, e) ↦ absurd (ground arith)
]
