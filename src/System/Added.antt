-- ===== src/System/Added.antt =====
-- What a method adds to the log: events of a kind, in front of what is there.
use mathlib.Core.List.{append_assoc}
use ublk_go.Prelude.{ℕ, ◌≡◌, refl, ap, sym, ◌∙◌, [], ◌∷◌, ◌++◌}
use ublk_go.System.{
  Ret, fine, fail, Event, Log, Kernel, Act, then_do, ◌>>=◌, ◌>>◌, give, refuse, change, look, call,
}

abbrev pub AllEvents : (Event → Type 0) → Log → Type 0
AllEvents P [] = Unit
AllEvents P (e ∷ es) = P e × AllEvents P es

AllEvents-append :
    (P : Event → Type 0) (es fs : Log) → AllEvents P es → AllEvents P fs → AllEvents P (es ++ fs)
AllEvents-append P [] fs a b = b
AllEvents-append P (e ∷ es) fs a b = (a.0, AllEvents-append P es fs a.1 b)

pub record Added (P : Event → Type 0) (l l' : Log) : Type 0 where
  pub events : Log
  pub in_front : l' ≡ events ++ l
  pub all : AllEvents P events

pub added_none : {P : Event → Type 0} (l : Log) → Added P l l
added_none l = record { events = []; in_front = refl; all = tt }

pub added_one : {P : Event → Type 0} (e : Event) (l : Log) → P e → Added P l (e ∷ l)
added_one e l p = record { events = e ∷ []; in_front = refl; all = (p, tt) }

pub added_both :
    {P : Event → Type 0} {l l' l'' : Log} → Added P l l' → Added P l' l'' → Added P l l''
added_both {P} {l} a b = record {
  events = b.events ++ a.events;
  in_front =
      b.in_front
      ∙ ap (λ (t : Log). b.events ++ t) a.in_front
      ∙ sym (append_assoc b.events a.events l);
  all = AllEvents-append P b.events a.events b.all a.all;
}

-- A method that adds events of the kind only, whatever the kernel answers.
module _ {O : Type 0} (P : Event → Type 0) where
  pub record Adds {A : Type 0} (m : Act O A) : Type 0 where
    pub added : (k : Kernel) (o : O) (l : Log) → Added P l (m k o l).2

  then_do-Added :
      {A B : Type 0} (f : A → Act O B) (k : Kernel) (l : Log) (out : Ret A × O × Log)
      → Added P l out.2
      → ((a : A) → Adds (f a))
      → Added P l (then_do f k out).2
  unfolding then_do
  then_do-Added f k l (fine a, o, l') before next = added_both before ((next a).added k o l')
  then_do-Added f k l (fail e, o, l') before next = before

  pub bind-Adds :
      {A B : Type 0} {m : Act O A} {f : A → Act O B}
      → Adds m
      → ((a : A) → Adds (f a))
      → Adds (m >>= f)
  unfolding ◌>>=◌
  bind-Adds {m = m} {f = f} am af = record {
    added = λ k o l. then_do-Added f k l (m k o l) (am.added k o l) af;
  }

  pub seq-Adds : {A B : Type 0} {m : Act O A} {n : Act O B} → Adds m → Adds n → Adds (m >> n)
  unfolding ◌>>◌
  seq-Adds am an = bind-Adds am (λ _. an)

  pub give-Adds : {A : Type 0} (a : A) → Adds (give {O = O} a)
  unfolding give
  give-Adds a = record { added = λ k o l. added_none l }

  pub refuse-Adds : (A : Type 0) (e : ℕ) → Adds (refuse {O = O} {A = A} e)
  unfolding refuse
  refuse-Adds A e = record { added = λ k o l. added_none l }

  pub change-Adds : (f : O → O) → Adds (change f)
  unfolding change
  change-Adds f = record { added = λ k o l. added_none l }

  pub look-Adds : {A : Type 0} {f : O → Act O A} → ((o : O) → Adds (f o)) → Adds (look f)
  unfolding look
  look-Adds af = record { added = λ k o l. (af o).added k o l }

  pub call-Adds :
      {A : Type 0} (ask : Kernel → Log → Ret A) (event : Ret A → Event) (put : A → O → O)
      → ((x : Ret A) → P (event x))
      → Adds (call ask event put)
  unfolding call
  call-Adds ask event put kind = record { added = λ k o l. added_one _ l (kind (ask k l)) }
