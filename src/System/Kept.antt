-- ===== src/System/Kept.antt =====
-- Descriptors and mappings are counted: a method that keeps the balance acquires and releases
-- exactly what its object gains and loses.
use ublk_go.Prelude.{ℕ, ◌+◌, ◌≡◌, ◌==◌, Option, none, some, [], ◌∷◌, arith, if◌then◌else◌}
use ublk_go.System.{
  Ret, fine, fail, Event, opened, ring_made, event_made, epoll_made, epoll_added, mapped, entered,
  reaped, slept, woken, joined, unmapped, closed, Log, Kernel, Act, then_do, ◌>>=◌, ◌>>◌, give,
  refuse, caught, attempt, change, look, keep, call,
}

pub data Res : Type 0 where
  descriptor : ℕ → Res
  mapping : ℕ → Res

unfoldable pub hit : Res → Res → ℕ
hit (descriptor a) (descriptor b) = if a == b then 1 else 0
hit (mapping a) (mapping b) = if a == b then 1 else 0
hit (descriptor a) (mapping b) = 0
hit (mapping a) (descriptor b) = 0

abbrev pub hit_fd : Res → Ret ℕ → ℕ
hit_fd r (fine fd) = hit r (descriptor fd)
hit_fd r (fail _) = 0

abbrev pub hit_map : Res → Ret ℕ → ℕ
hit_map r (fine a) = hit r (mapping a)
hit_map r (fail _) = 0

-- How often an event acquires the resource.
abbrev pub gains : Res → Event → ℕ
gains r (opened _ x) = hit_fd r x
gains r (ring_made _ _ x) = hit_fd r x
gains r (event_made x) = hit_fd r x
gains r (epoll_made x) = hit_fd r x
gains r (epoll_added _ _ _) = 0
gains r (mapped _ _ _ x) = hit_map r x
gains r (entered _ _ _ _) = 0
gains r (reaped _ _) = 0
gains r slept = 0
gains r (woken _) = 0
gains r joined = 0
gains r (unmapped _) = 0
gains r (closed _) = 0

-- How often an event releases it.
abbrev pub losses : Res → Event → ℕ
losses r (opened _ _) = 0
losses r (ring_made _ _ _) = 0
losses r (event_made _) = 0
losses r (epoll_made _) = 0
losses r (epoll_added _ _ _) = 0
losses r (mapped _ _ _ _) = 0
losses r (entered _ _ _ _) = 0
losses r (reaped _ _) = 0
losses r slept = 0
losses r (woken _) = 0
losses r joined = 0
losses r (unmapped a) = hit r (mapping a)
losses r (closed fd) = hit r (descriptor fd)

abbrev pub acquired : Res → Log → ℕ
acquired r [] = 0
acquired r (e ∷ l) = gains r e + acquired r l

abbrev pub released : Res → Log → ℕ
released r [] = 0
released r (e ∷ l) = losses r e + released r l

-- From the log `l` with `n` of the resource owned to `l'` with `n'`.
abbrev pub Kept : Res → ℕ → Log → ℕ → Log → Type 0
Kept r n l n' l' = acquired r l' + released r l + n ≡ acquired r l + released r l' + n'

-- A field that holds a descriptor or a mapping, `none` for -1 or nil.
abbrev pub own_fd : Res → Option ℕ → ℕ
own_fd r none = 0
own_fd r (some fd) = hit r (descriptor fd)

abbrev pub own_map : Res → Option ℕ → ℕ
own_map r none = 0
own_map r (some a) = hit r (mapping a)

-- What holds of the object if the method ended without an error, and what if with one.
abbrev pub Fits : {O A : Type 0} → (O → Type 0) → (O → Type 0) → Ret A × O × Log → Type 0
Fits E Q (fine a, o, l) = Q o
Fits E Q (fail e, o, l) = E o

module _ {O : Type 0} (own : Res → O → ℕ) (E : O → Type 0) where
  -- A method that from any object with `P` keeps the balance, however it ends, and that leaves an
  -- object with `Q` if it ends without an error, and one with `E` if with one.
  pub record Keeps {A : Type 0} (P : O → Type 0) (m : Act O A) (Q : O → Type 0) : Type 0 where
    pub balance :
        (k : Kernel) (o : O) (l : Log) (r : Res)
        → P o
        → Kept r (own r o) l (own r (m k o l).1) (m k o l).2
    pub after : (k : Kernel) (o : O) (l : Log) → P o → Fits E Q (m k o l)

  then_do-Kept :
      {A B : Type 0} {Q R : O → Type 0} (f : A → Act O B) (k : Kernel) (n : ℕ) (l : Log) (r : Res)
      (out : Ret A × O × Log)
      → Kept r n l (own r out.1) out.2
      → Fits E Q out
      → ((a : A) → Keeps Q (f a) R)
      → Kept r n l (own r (then_do f k out).1) (then_do f k out).2
  unfolding then_do
  then_do-Kept f k n l r (fine a, o, l') before q next =
      omega (arith, before, (next a).balance k o l' r q)
  then_do-Kept f k n l r (fail e, o, l') before q next = before

  then_do-Fits :
      {A B : Type 0} {Q R : O → Type 0} (f : A → Act O B) (k : Kernel) (out : Ret A × O × Log)
      → Fits E Q out
      → ((a : A) → Keeps Q (f a) R)
      → Fits E R (then_do f k out)
  unfolding then_do
  then_do-Fits f k (fine a, o, l') q next = (next a).after k o l' q
  then_do-Fits f k (fail e, o, l') q next = q

  pub bind-Keeps :
      {A B : Type 0} {P Q R : O → Type 0} {m : Act O A} {f : A → Act O B}
      → Keeps P m Q
      → ((a : A) → Keeps Q (f a) R)
      → Keeps P (m >>= f) R
  unfolding ◌>>=◌
  bind-Keeps {Q = Q} {m = m} {f = f} km kf = record {
    balance = λ k o l r p.
        then_do-Kept {Q = Q} f k (own r o) l r (m k o l) (km.balance k o l r p) (km.after k o l p)
          kf;
    after = λ k o l p. then_do-Fits {Q = Q} f k (m k o l) (km.after k o l p) kf;
  }

  pub seq-Keeps :
      {A B : Type 0} {P Q R : O → Type 0} {m : Act O A} {n : Act O B}
      → Keeps P m Q
      → Keeps Q n R
      → Keeps P (m >> n) R
  unfolding ◌>>◌
  seq-Keeps km kn = bind-Keeps km (λ _. kn)

  pub give-Keeps : {A : Type 0} {P : O → Type 0} (a : A) → Keeps P (give {O = O} a) P
  unfolding give
  give-Keeps a = record { balance = λ k o l r p. omega arith; after = λ k o l p. p }

  pub refuse-Keeps :
      (A : Type 0) {P Q : O → Type 0} (e : ℕ)
      → ((o : O) → P o → E o)
      → Keeps P (refuse {O = O} {A = A} e) Q
  unfolding refuse
  refuse-Keeps A e fails = record {
    balance = λ k o l r p. omega arith;
    after = λ k o l p. fails o p;
  }

  caught-Kept :
      {A : Type 0} (n : ℕ) (l : Log) (r : Res) (out : Ret A × O × Log)
      → Kept r n l (own r out.1) out.2
      → Kept r n l (own r (caught out).1) (caught out).2
  unfolding caught
  caught-Kept n l r (fine a, o, l') h = h
  caught-Kept n l r (fail e, o, l') h = h

  caught-Fits : {A : Type 0} (out : Ret A × O × Log) → Fits E E out → Fits E E (caught out)
  unfolding caught
  caught-Fits (fine a, o, l) h = h
  caught-Fits (fail e, o, l) h = h

  pub attempt-Keeps :
      {A : Type 0} {P : O → Type 0} {m : Act O A} → Keeps P m E → Keeps P (attempt m) E
  unfolding attempt
  attempt-Keeps {m = m} km = record {
    balance = λ k o l r p. caught-Kept (own r o) l r (m k o l) (km.balance k o l r p);
    after = λ k o l p. caught-Fits (m k o l) (km.after k o l p);
  }

  pub change-Keeps :
      {P Q : O → Type 0} (f : O → O)
      → ((r : Res) (o : O) → P o → own r (f o) ≡ own r o)
      → ((o : O) → P o → Q (f o))
      → Keeps P (change f) Q
  unfolding change
  change-Keeps f same leads = record {
    balance = λ k o l r p. omega (arith, same r o p);
    after = λ k o l p. leads o p;
  }

  pub look-Keeps :
      {A : Type 0} {P Q : O → Type 0} {f : O → Act O A}
      → ((o : O) → Keeps P (f o) Q)
      → Keeps P (look f) Q
  unfolding look
  look-Keeps kf = record {
    balance = λ k o l r p. (kf o).balance k o l r p;
    after = λ k o l p. (kf o).after k o l p;
  }

  keep-Fits :
      {A : Type 0} {P : O → Type 0} (Q : O → Type 0) (put : A → O → O) (x : Ret A) (o : O) (l : Log)
      → P o
      → ((a : A) (o' : O) → P o' → Q (put a o'))
      → (P o → E o)
      → Fits E Q (x, keep put x o, l)
  unfolding keep
  keep-Fits Q put (fine a) o l p leads fails = leads a o p
  keep-Fits Q put (fail e) o l p leads fails = fails p

  -- One call: it is enough that the event and what the object keeps of the answer agree.
  pub call-Keeps :
      {A : Type 0} {P Q : O → Type 0} (ask : Kernel → Log → Ret A) (event : Ret A → Event)
      (put : A → O → O)
      → ((r : Res) (o : O) (x : Ret A)
          → P o
          → gains r (event x) + own r o ≡ losses r (event x) + own r (keep put x o))
      → ((a : A) (o : O) → P o → Q (put a o))
      → ((o : O) → P o → E o)
      → Keeps P (call ask event put) Q
  unfolding call
  call-Keeps {Q = Q} ask event put even leads fails = record {
    balance = λ k o l r p. omega (arith, even r o (ask k l) p);
    after = λ k o l p. keep-Fits Q put (ask k l) o _ p leads (fails o);
  }

weaken-Fits :
    {O A : Type 0} {E E' Q Q' : O → Type 0} (out : Ret A × O × Log)
    → ((o : O) → E o → E' o)
    → ((o : O) → Q o → Q' o)
    → Fits E Q out
    → Fits E' Q' out
weaken-Fits (fine a, o, l) fails ends h = ends o h
weaken-Fits (fail e, o, l) fails ends h = fails o h

-- Less may be said of the object afterwards.
pub weaken-Keeps :
    {O A : Type 0} {own : Res → O → ℕ} {E E' P Q Q' : O → Type 0} {m : Act O A}
    → ((o : O) → E o → E' o)
    → ((o : O) → Q o → Q' o)
    → Keeps own E P m Q
    → Keeps own E' P m Q'
weaken-Keeps {E = E} {E' = E'} {Q = Q} {Q' = Q'} {m = m} fails ends km = record {
  balance = km.balance;
  after = λ k o l p.
      weaken-Fits {E = E} {E' = E'} {Q = Q} {Q' = Q'} (m k o l) fails ends (km.after k o l p);
}
