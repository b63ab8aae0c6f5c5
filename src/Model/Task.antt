-- ===== src/Model/Task.antt =====
-- Asynchronous functions of the client as actions on its state. What was written before an error
-- is thrown stays written. The await points of one action see no other action in between: the sync
-- engine runs its work on a conversation under that conversation's lock.
use family_messenger_e2e.Base.{suc, Option, none, some}
use family_messenger_e2e.Base.Outcome.{Outcome, ok, err, Fault}
use family_messenger_e2e.Model.Client.{Client}

abbrev pub Task {ℓ} : Type ℓ → Type ℓ
Task A = Client → Outcome A × Client

abbrev pub continue {ℓ} : {A B : Type ℓ} → (A → Task B) → Outcome A → Client → Outcome B × Client
continue f (ok a) c = f a c
continue f (err e) c = (err e, c)

infixl 5 ◌>>=◌ ◌>>◌
abbrev pub ◌>>=◌ {ℓ} : {A B : Type ℓ} → Task A → (A → Task B) → Task B
◌>>=◌ m f c = let r = m c in continue f r.0 r.1

abbrev pub ◌>>◌ : {B : Type 0} → Task (Unit {0}) → Task B → Task B
m >> k = m >>= λ _. k

abbrev pub pure {ℓ} : {A : Type ℓ} → A → Task A
pure a c = (ok a, c)

abbrev pub lift {ℓ} : {A : Type ℓ} → Outcome A → Task A
lift r c = (r, c)

abbrev pub modify : (Client → Client) → Task (Unit {0})
modify f c = (ok tt, f c)

-- `try { … } catch { … }` that only logs
abbrev pub attempt : Task (Unit {0}) → Client → Client
attempt m c = (m c).1

-- One request: the answer of the server, or the error that `fetch` or the status throws.
abbrev pub counted : Client → Client
counted c = record c { requests = suc c.requests }

abbrev pub answered {ℓ} : {A : Type ℓ} → Option A → Outcome A
answered none = err Fault.request_failed
answered (some a) = ok a
