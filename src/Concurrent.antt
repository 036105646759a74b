-- ===== src/Concurrent.antt =====
-- Calls that run at the same time. gRPC serves every call in a goroutine of its own and the sweep has
-- one too, so another call can come between any two accesses to what they share.
pub mod Schedule
pub mod Operations
pub mod Running
pub mod Races
pub mod Starting
pub mod Crashes
pub mod Apart
use per_node_csi_driver.Prelude.{◌≡◌, refl}
use per_node_csi_driver.Prelude.Exec.{Result, ok, err, Exec}

-- A goroutine that still has accesses to make: the next one changes the state, and what was there
-- before it decides how the goroutine goes on.
pub data Thread (S A : Type 0) : Type 0 where
  ret : A → Thread S A
  act : (S → S) → (S → Thread S A) → Thread S A

-- Go's `if err != nil { … }` after a call.
abbrev pub by_result : {E A B : Type 0} → (A → B) → (E → B) → Result E A → B
by_result f g (ok a) = f a
by_result f g (err e) = g e

module _ {S : Type 0} where
  -- One access that returns a value.
  abbrev pub access : {A B : Type 0} → (S → A × S) → (A → Thread S B) → Thread S B
  access f k = act (λ s. (f s).1) (λ s. k (f s).0)

  abbrev pub read : {A B : Type 0} → (S → A) → (A → Thread S B) → Thread S B
  read f k = act (λ s. s) (λ s. k (f s))

  abbrev pub update : {B : Type 0} → (S → S) → Thread S B → Thread S B
  update f k = act f (λ s. k)

  -- What comes after the thread.
  unfoldable pub andthen : {A B : Type 0} → Thread S A → (A → Thread S B) → Thread S B
  andthen (ret a) k = k a
  andthen (act f next) k = act f (λ s. andthen (next s) k)

  -- The thread with nothing in between.
  unfoldable pub alone : {A : Type 0} → Thread S A → S → A × S
  alone (ret a) s = (a, s)
  alone (act f next) s = alone (next s) (f s)

  pub alone-andthen :
      {A B : Type 0} (m : Thread S A) (k : A → Thread S B) (s : S)
      → alone (andthen m k) s ≡ alone (k (alone m s).0) (alone m s).1
  unfolding andthen alone
  alone-andthen (ret a) k s = refl
  alone-andthen (act f next) k s = alone-andthen (next s) k (f s)

module _ {S E A : Type 0} where
  -- One call that may return an error.
  abbrev pub call : Exec S E A → Thread S (Result E A)
  call m = access m ret

  -- A thread after the thread that succeeded, and one after the thread that failed.
  infixl 10 ◌>>=◌ ◌>>◌
  abbrev pub ◌>>=◌ :
      {B : Type 0} → Thread S (Result E A) → (A → Thread S (Result E B)) → Thread S (Result E B)
  m >>= k = andthen m (by_result k (λ e. ret (err e)))

  abbrev pub ◌>>◌ :
      {B : Type 0} → Thread S (Result E A) → Thread S (Result E B) → Thread S (Result E B)
  m >> n = m >>= λ _. n

  abbrev pub rescue :
      {F : Type 0} → Thread S (Result E A) → (E → Thread S (Result F A)) → Thread S (Result F A)
  rescue m g = andthen m (by_result (λ a. ret (ok a)) g)
