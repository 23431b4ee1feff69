-- ===== src/Fleet/Mutations.antt =====
-- The mutations that an operation asks of the miners.
use bitaxe_fleet.Prelude.{
  ◌≡◌, refl, ap, ◌∙◌, ◌⊎◌, Bool, true, false, List, [], ◌∷◌, ◌++◌, if◌then◌else◌, Bool-cases, inl,
  inr,
}
use mathlib.Core.List.{append-nil}
use bitaxe_fleet.Storage.State.{MinerRegistry}
use bitaxe_fleet.Axeos.Errors.{Result}
use bitaxe_fleet.Axeos.Models.{MinerEndpoint}
use bitaxe_fleet.Axeos.Client.{Attempt}
use bitaxe_fleet.Fleet.Device.{Command, History, is_mutation}
use bitaxe_fleet.Fleet.Coordinator.{
  Trouble, Ending, failed, returned, MinerCoordinator, Context, Act, ◌>>=◌, pure, fail, go_on, ask,
  store,
}
use bitaxe_fleet.Fleet.Coordinator.Methods.{modify}
use bitaxe_fleet.Fleet.Refresh.{with_call}

-- The mutations on record, in their order.
unfoldable pub mutations : History → List Command
mutations [] = []
mutations (x ∷ h) =
    let rest = mutations h in if is_mutation x.command then x.command ∷ rest else rest

pub mutations-append : (h g : History) → mutations (h ++ g) ≡ mutations h ++ mutations g
unfolding mutations
mutations-append [] g = refl
mutations-append (x ∷ h) g = elim (Bool-cases (is_mutation x.command)) [
  | inl e ↦ rw (e, mutations-append h g) refl
  | inr e ↦ rw (e, mutations-append h g) refl
]

-- An operation that asks for no mutation.
pub record Quiet {A : Type 0} (m : Act A) : Type 0 where
  pub quiet : (c : Context) → mutations (m c).1.history ≡ mutations c.history

-- An operation that asks for this mutation or for none.
pub record AtMost (command : Command) {A : Type 0} (m : Act A) : Type 0 where
  pub at_most :
      (c : Context)
      → (mutations (m c).1.history ≡ mutations c.history)
        ⊎ (mutations (m c).1.history ≡ mutations c.history ++ command ∷ [])

bind_by :
    {A B : Type 0} (P : Context → Type 0) (f : A → Act B) (r : Ending A × Context)
    → P r.1
    → ((a : A) → P r.1 → P (f a r.1).1)
    → P (((λ (c : Context). r) >>= f) r.1).1
bind_by P f (failed t, c) h k = h
bind_by P f (returned a, c) h k = k a h

pub bind-returned :
    {A B : Type 0} (m : Act A) (f : A → Act B) (c : Context) {a : A}
    → (m c).0 ≡ returned a
    → (m >>= f) c ≡ f a (m c).1
bind-returned {A} m f c e = ap (λ (r : Ending A). go_on r f (m c).1) e

pub bind-failed :
    {A B : Type 0} (m : Act A) (f : A → Act B) (c : Context) {t : Trouble}
    → (m c).0 ≡ failed t
    → (m >>= f) c ≡ (failed t, (m c).1)
bind-failed {A} m f c e = ap (λ (r : Ending A). go_on r f (m c).1) e

pub Quiet-bind :
    {A B : Type 0} {m : Act A} {f : A → Act B} → Quiet m → ((a : A) → Quiet (f a)) → Quiet (m >>= f)
Quiet-bind {m} {f} q k = record {
  quiet = λ c.
      bind_by (λ x. mutations x.history ≡ mutations c.history) f (m c) (q.quiet c)
        (λ a h. (k a).quiet (m c).1 ∙ h);
}

pub AtMost-then :
    {A B : Type 0} {m : Act A} {f : A → Act B} {command : Command}
    → AtMost command m
    → ((a : A) → Quiet (f a))
    → AtMost command (m >>= f)
AtMost-then {m} {f} {command} q k = record {
  at_most = λ c.
      bind_by
        (λ x.
          (mutations x.history ≡ mutations c.history)
          ⊎ (mutations x.history ≡ mutations c.history ++ command ∷ []))
        f (m c) (q.at_most c)
        (λ a h. elim h [
          | inl e ↦ inl ((k a).quiet (m c).1 ∙ e)
          | inr e ↦ inr ((k a).quiet (m c).1 ∙ e)
        ]);
}

pub Quiet-then :
    {A B : Type 0} {m : Act A} {f : A → Act B} {command : Command}
    → Quiet m
    → ((a : A) → AtMost command (f a))
    → AtMost command (m >>= f)
Quiet-then {m} {f} {command} q k = record {
  at_most = λ c.
      bind_by
        (λ x.
          (mutations x.history ≡ mutations c.history)
          ⊎ (mutations x.history ≡ mutations c.history ++ command ∷ []))
        f (m c) (inl (q.quiet c))
        (λ a h. elim ((k a).at_most (m c).1) [
          | inl e ↦ inl (e ∙ q.quiet c)
          | inr e ↦ inr (e ∙ ap (λ (l : List Command). l ++ command ∷ []) (q.quiet c))
        ]);
}

pub Quiet-pure : {A : Type 0} (a : A) → Quiet (pure a)
Quiet-pure a = record { quiet = λ c. refl }

pub Quiet-fail : {A : Type 0} (t : Trouble) → Quiet {A = A} (fail t)
Quiet-fail t = record { quiet = λ c. refl }

pub Quiet-store :
    {A : Type 0} (method : MinerRegistry → Result A × MinerRegistry) → Quiet (store method)
Quiet-store method = record { quiet = λ c. refl }

pub Quiet-modify : (f : MinerCoordinator → MinerCoordinator) → Quiet (modify f)
Quiet-modify f = record { quiet = λ c. refl }

pub Quiet-if :
    {A : Type 0} (b : Bool) {m n : Act A} → Quiet m → Quiet n → Quiet (if b then m else n)
Quiet-if true q r = q
Quiet-if false q r = r

pub mutations_call :
    (command : Command) (c : Context)
    → is_mutation command ≡ false
    → mutations (with_call command c) ≡ mutations c.history
unfolding mutations
mutations_call command c e = mutations-append c.history _ ∙ rw e (append-nil (mutations c.history))

pub Quiet-ask :
    {A : Type 0} (command : Command) (method : History → MinerEndpoint → Attempt A)
    → is_mutation command ≡ false
    → Quiet (ask command method)
Quiet-ask command method e = record { quiet = λ c. mutations_call command c e }

pub mutations_mutation :
    (command : Command) (c : Context)
    → is_mutation command ≡ true
    → mutations (with_call command c) ≡ mutations c.history ++ command ∷ []
unfolding mutations
mutations_mutation command c e = mutations-append c.history _ ∙ rw e refl

pub AtMost-ask :
    {A : Type 0} (command : Command) (method : History → MinerEndpoint → Attempt A)
    → is_mutation command ≡ true
    → AtMost command (ask command method)
AtMost-ask command method e = record { at_most = λ c. inr (mutations_mutation command c e) }
