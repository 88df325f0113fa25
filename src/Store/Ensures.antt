-- ===== src/Store/Ensures.antt =====
-- What a transaction has done if it gets to its end, whatever statements fail: one rule for each
-- way to build a transaction.
use mathlib.Core.Path.{subst}
use go_commerce.Base.{◌≡◌, refl, Bool, true, false, Option, none, some, [], ◌∷◌, if◌then◌else◌}
use go_commerce.Domain.Errors.{Error, Result, ok, err}
use go_commerce.Store.Models.{Db}
use go_commerce.Store.Tx.{
  Faults, Outcome, done, abort, Tx, pure, raise, settle, statement, query, exec, transaction,
  finish, lift, found, ◌>>=◌,
}

abbrev pub Holds : {A : Type 0} → (A → Db → Type 0) → Outcome A → Type 0
Holds Q (done a db fs) = Q a db
Holds Q (abort e fs) = Unit

pub record Ensures {A : Type 0} (db : Db) (m : Tx A) (Q : A → Db → Type 0) : Type 0 where
  pub at : (fs : Faults) → Holds Q (m db fs)

settle-Holds :
    {A : Type 0} (Q : A → Db → Type 0) (r : Option (A × Db)) (fs : Faults)
    → ((a : A) (d : Db) → r ≡ some (a, d) → Q a d)
    → Holds Q (settle r fs)
settle-Holds Q none fs q = tt
settle-Holds Q (some (a, d)) fs q = q a d refl

bind-Holds :
    {A B : Type 0} (Q : B → Db → Type 0) (R : A → Db → Type 0) (o : Outcome A) (f : A → Tx B)
    → Holds R o
    → ((a : A) (d : Db) → R a d → Ensures d (f a) Q)
    → Holds Q (elim o [ done a d fs ↦ f a d fs | abort e fs ↦ abort e fs ])
bind-Holds Q R (done a d fs) f r k = (k a d r).at fs
bind-Holds Q R (abort e fs) f r k = tt

module _ {A : Type 0} {db : Db} {Q : A → Db → Type 0} where
  pub Ensures-pure : (a : A) → Q a db → Ensures db (pure a) Q
  Ensures-pure a q = record { at = λ fs. q }

  pub Ensures-raise : (e : Error) → Ensures db (raise e) Q
  Ensures-raise e = record { at = λ fs. tt }

  pub Ensures-query : (f : Db → A) → Q (f db) db → Ensures db (query f) Q
  unfolding query
  Ensures-query f q = record { at = elim [ [] ↦ q | true ∷ fs ↦ tt | false ∷ fs ↦ q ] }

  pub Ensures-statement :
      (f : Db → Option (A × Db))
      → ((a : A) (d : Db) → f db ≡ some (a, d) → Q a d)
      → Ensures db (statement f) Q
  unfolding statement
  Ensures-statement f q = record {
    at = elim [
      | [] ↦ settle-Holds Q (f db) [] q
      | true ∷ fs ↦ tt
      | false ∷ fs ↦ settle-Holds Q (f db) fs q
    ];
  }

  pub Ensures-if :
      (b : Bool) (m n : Tx A)
      → (b ≡ true → Ensures db m Q)
      → (b ≡ false → Ensures db n Q)
      → Ensures db (if b then m else n) Q
  Ensures-if true m n hm hn = hm refl
  Ensures-if false m n hm hn = hn refl

pub Ensures-exec :
    {db : Db} {Q : Unit {0} → Db → Type 0} (f : Db → Db) → Q tt (f db) → Ensures db (exec f) Q
unfolding exec
Ensures-exec f q = record { at = elim [ [] ↦ q | true ∷ fs ↦ tt | false ∷ fs ↦ q ] }

module _ {A B : Type 0} {db : Db} {Q : B → Db → Type 0} where
  pub Ensures-bind :
      {R : A → Db → Type 0} (m : Tx A) (f : A → Tx B)
      → Ensures db m R
      → ((a : A) (d : Db) → R a d → Ensures d (f a) Q)
      → Ensures db (m >>= f) Q
  Ensures-bind {R} m f hm hf = record { at = λ fs. bind-Holds Q R (m db fs) f (hm.at fs) hf }

  pub Ensures-lift :
      (r : Result A) (f : A → Tx B)
      → ((a : A) → r ≡ ok a → Ensures db (f a) Q)
      → Ensures db (lift r >>= f) Q
  Ensures-lift (ok a) f k = record { at = (k a refl).at }
  Ensures-lift (err e) f k = record { at = λ fs. tt }

  pub Ensures-found :
      (o : Option A) (e : Error) (f : A → Tx B)
      → ((a : A) → o ≡ some a → Ensures db (f a) Q)
      → Ensures db (found o e >>= f) Q
  Ensures-found none e f k = record { at = λ fs. tt }
  Ensures-found (some a) e f k = record { at = (k a refl).at }

  -- A query, with what it read known to the rest.
  pub Ensures-read :
      (g : Db → A) (f : A → Tx B) → Ensures db (f (g db)) Q → Ensures db (query g >>= f) Q
  Ensures-read g f k =
      Ensures-bind {R = λ a d. (a ≡ g db) × (d ≡ db)} (query g) f (Ensures-query g (refl, refl))
        (λ a d r. go a d r.0 r.1)
    where
      go : (a : A) (d : Db) → a ≡ g db → d ≡ db → Ensures d (f a) Q
      go a d p q = rw (p, q) k

weaken-Holds :
    {A : Type 0} (Q R : A → Db → Type 0) (o : Outcome A)
    → Holds R o
    → ((a : A) (d : Db) → R a d → Q a d)
    → Holds Q o
weaken-Holds Q R (done a d fs) h k = k a d h
weaken-Holds Q R (abort e fs) h k = tt

pub Ensures-weaken :
    {A : Type 0} {db : Db} {m : Tx A} {Q R : A → Db → Type 0}
    → Ensures db m R
    → ((a : A) (d : Db) → R a d → Q a d)
    → Ensures db m Q
Ensures-weaken {db = db} {m = m} {Q = Q} {R = R} h k = record {
  at = λ fs. weaken-Holds Q R (m db fs) (h.at fs) k;
}

pub Ensures-write :
    {B : Type 0} {db : Db} {Q : B → Db → Type 0} (g : Db → Db) (f : Unit {0} → Tx B)
    → Ensures (g db) (f tt) Q
    → Ensures db (exec g >>= f) Q
Ensures-write {db = db} g f k =
    Ensures-bind {R = λ _ d. d ≡ g db} (exec g) f (Ensures-exec g refl) (λ _ d e. rw e k)

-- A whole transaction: it keeps what its body keeps, since an error undoes the body's writes.
module _ {A : Type 0} {db : Db} (P : Db → Type 0) where
  finish-Keeps : (a : A) (d : Db) (fs : Faults) → P db → P d → P (finish a db d fs).1
  finish-Keeps a d [] h k = k
  finish-Keeps a d (true ∷ fs) h k = h
  finish-Keeps a d (false ∷ fs) h k = k

  pub transaction-Keeps :
      (m : Tx A) (fs : Faults) → P db → Ensures db m (λ _ d. P d) → P (transaction m db fs).1
  unfolding transaction
  transaction-Keeps m fs h k = go (m db fs) (k.at fs)
    where
      go :
          (o : Outcome A)
          → Holds (λ _ d. P d) o
          → P
              (elim o as (λ _. Result A × Db × Faults) [
                | done a d fs' ↦ finish a db d fs'
                | abort e fs' ↦ (err e, db, fs')
              ]).1
      go (done a d fs') q = finish-Keeps a d fs' h q
      go (abort e fs') q = h

-- `m` keeps `P`, from any database and whatever statements fail.
pub record Keeps {A : Type 0} (P : Db → Type 0) (m : Tx A) : Type 0 where
  pub at : (db : Db) → P db → Ensures db m (λ _ d. P d)

module _ {A : Type 0} {P : Db → Type 0} where
  pub Keeps-pure : (a : A) → Keeps P (pure a)
  Keeps-pure a = record { at = λ db h. Ensures-pure a h }

  pub Keeps-raise : (e : Error) → Keeps P (raise {A = A} e)
  Keeps-raise e = record { at = λ db h. Ensures-raise e }

  pub Keeps-query : (f : Db → A) → Keeps P (query f)
  Keeps-query f = record { at = λ db h. Ensures-query f h }

  pub Keeps-lift : (r : Result A) → Keeps P (lift r)
  Keeps-lift (ok a) = record { at = λ db h. record { at = λ fs. h } }
  Keeps-lift (err e) = record { at = λ db h. record { at = λ fs. tt } }

  pub Keeps-found : (o : Option A) (e : Error) → Keeps P (found o e)
  Keeps-found none e = record { at = λ db h. record { at = λ fs. tt } }
  Keeps-found (some a) e = record { at = λ db h. record { at = λ fs. h } }

  pub Keeps-if : (b : Bool) (m n : Tx A) → Keeps P m → Keeps P n → Keeps P (if b then m else n)
  Keeps-if true m n hm hn = hm
  Keeps-if false m n hm hn = hn

pub Keeps-exec : {P : Db → Type 0} (f : Db → Db) → ((db : Db) → P db → P (f db)) → Keeps P (exec f)
Keeps-exec f h = record { at = λ db k. Ensures-exec f (h db k) }

pub Keeps-bind :
    {A B : Type 0} {P : Db → Type 0} (m : Tx A) (f : A → Tx B)
    → Keeps P m
    → ((a : A) → Keeps P (f a))
    → Keeps P (m >>= f)
Keeps-bind m f hm hf = record {
  at = λ db h. Ensures-bind m f (hm.at db h) (λ a d k. (hf a).at d k);
}

pub Keeps-transaction :
    {A : Type 0} {P : Db → Type 0} (m : Tx A) (db : Db) (fs : Faults)
    → Keeps P m
    → P db
    → P (transaction m db fs).1
Keeps-transaction {P = P} m db fs k h = transaction-Keeps P m fs h (k.at db h)

pub ruleset keeps_rules =
    (Keeps-pure, Keeps-raise, Keeps-query, Keeps-lift, Keeps-found, Keeps-if, Keeps-bind)

pub Keeps-statement :
    {A : Type 0} {P : Db → Type 0} (f : Db → Option (A × Db))
    → ((db : Db) (a : A) (d : Db) → P db → f db ≡ some (a, d) → P d)
    → Keeps P (statement f)
Keeps-statement f k = record { at = λ db h. Ensures-statement f (λ a d e. k db a d h e) }

-- A statement that inserts a row, or violates a constraint.
pub Keeps-insert :
    {P : Db → Type 0} (test : Db → Bool) (f : Db → Db)
    → ((db : Db) → P db → P (f db))
    → Keeps P (statement (λ db. if test db then none else some (tt, f db)))
Keeps-insert {P = P} test f k = record {
  at = λ db h. Ensures-statement _ (λ a d e. go db h (test db) a d e);
}
  where
    go :
        (db : Db)
        → P db
        → (b : Bool) (a : Unit {0}) (d : Db)
        → if◌then◌else◌ {A = Option (Unit {0} × Db)} b none (some (tt, f db)) ≡ some (a, d)
        → P d
    go db h true a d e = absurd (cc)
    go db h false a d e = subst P (cc) (k db h)

-- A statement that cannot violate a constraint.
pub Ensures-always :
    {A : Type 0} {db : Db} {Q : A → Db → Type 0} (f : Db → A × Db)
    → Q (f db).0 (f db).1
    → Ensures db (statement (λ x. some (f x))) Q
unfolding statement
Ensures-always f q = record { at = elim [ [] ↦ q | true ∷ fs ↦ tt | false ∷ fs ↦ q ] }

pub Keeps-always :
    {A : Type 0} {P : Db → Type 0} (f : Db → A × Db)
    → ((db : Db) → P db → P (f db).1)
    → Keeps P (statement (λ x. some (f x)))
Keeps-always f k = record { at = λ db h. Ensures-always f (k db h) }

pub Ensures-of-found :
    {A : Type 0} {db : Db} {Q : A → Db → Type 0} (o : Option A) (e : Error)
    → ((a : A) → o ≡ some a → Q a db)
    → Ensures db (found o e) Q
Ensures-of-found none e k = record { at = λ fs. tt }
Ensures-of-found (some a) e k = record { at = λ fs. k a refl }

finish-ok :
    {A : Type 0} (Q : Db → Type 0) (a b : A) (old d : Db) (fs : Faults)
    → Q d
    → (finish a old d fs).0 ≡ ok b
    → Q (finish a old d fs).1
finish-ok Q a b old d [] q e = q
finish-ok Q a b old d (true ∷ fs) q e = absurd (cc)
finish-ok Q a b old d (false ∷ fs) q e = q

-- What a transaction that returned no error has made true.
module _ {A : Type 0} {db : Db} {Q : Db → Type 0} where
  pub transaction-ok :
      (m : Tx A) (fs : Faults) (b : A)
      → Ensures db m (λ _ d. Q d)
      → (transaction m db fs).0 ≡ ok b
      → Q (transaction m db fs).1
  unfolding transaction
  transaction-ok m fs b k e = go (m db fs) (k.at fs) e
    where
      go :
          (o : Outcome A)
          → Holds (λ _ d. Q d) o
          → (elim o as (λ _. Result A × Db × Faults) [
            | done a d fs' ↦ finish a db d fs'
            | abort x fs' ↦ (err x, db, fs')
          ]).0
            ≡ ok b
          → Q
              (elim o as (λ _. Result A × Db × Faults) [
                | done a d fs' ↦ finish a db d fs'
                | abort x fs' ↦ (err x, db, fs')
              ]).1
      go (done a d fs') q e = finish-ok Q a b db d fs' q e
      go (abort x fs') q e = absurd (cc)
