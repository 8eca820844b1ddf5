-- ===== src/Service/Preserves/Basics.antt =====
-- The invariant through the steps that operations share.
use touch_connect.Prelude.{
  ℕ, String, ◌≢◌, refl, ◌∙◌, eq_iff, arith, true, false, Bool, if◌then◌else◌,
}
use touch_connect.Memory.Store.{Store}
use touch_connect.Memory.Invariant.Fresh.{Good, SameLedger, SameLedger-Good, sequence-next_ref_ne}
use touch_connect.Exec.{Exec, ◌>>=◌}
use touch_connect.Domain.Errors.{Error, Result, err}
use touch_connect.Domain.Model.{Message}
use touch_connect.Service.World.{World, DeliveryAdapter, allocate, on_store, ack_with, publish_with}
use touch_connect.Service.Rules.{Ends, Ends-bind}

-- The outcome leaves a good store.
abbrev pub GoodAfter : {A : Type 0} → ℕ → Result A × World → Type 0
GoodAfter max r = Good max r.1.store

pub allocate-Good :
    {max : ℕ} (kind : String) (w : World)
    → kind ≢ "attempt"
    → Good max w.store
    → GoodAfter max (allocate kind w)
unfolding allocate
allocate-Good kind w other g = SameLedger-Good (sequence-next_ref_ne w.store kind other) g

pub dead_letter_ne_attempt : ◌≢◌ {A = String} "dead-letter" "attempt"
dead_letter_ne_attempt = ground (arith, eq_iff "dead-letter" "attempt")

-- The step leaves messages, attempts and the attempt numbers as they were.
abbrev pub Keeps : {A : Type 0} → World → Result A × World → Type 0
Keeps w r = SameLedger w.store r.1.store

pub SameLedger-refl : (s : Store) → SameLedger s s
SameLedger-refl s = record { messages_same = refl; attempts_same = refl; sequence_same = refl }

pub SameLedger-trans : {s t u : Store} → SameLedger s t → SameLedger t u → SameLedger s u
SameLedger-trans d e = record {
  messages_same = e.messages_same ∙ d.messages_same;
  attempts_same = e.attempts_same ∙ d.attempts_same;
  sequence_same = e.sequence_same ∙ d.sequence_same;
}

pub SameLedger-if :
    {A : Type 0} {s : Store} (b : Bool) (x y : Result A × Store)
    → SameLedger s x.1
    → SameLedger s y.1
    → SameLedger s (if b then x else y).1
SameLedger-if true x y hx hy = hx
SameLedger-if false x y hx hy = hy

module _ {A : Type 0} where
  -- A step that keeps the ledger, before the rest, towards any condition that a failure in a good
  -- store meets.
  pub Ends-Keeps_to :
      {B : Type 0} {max : ℕ} {w : World} (Q : Result B × World → Type 0) (m : Exec World A)
      (f : A → Exec World B)
      → ((e : Error) (v : World) → Good max v.store → Q (err e, v))
      → Good max w.store
      → Ends (Keeps w) m w
      → ((a : A) (v : World) → SameLedger w.store v.store → Good max v.store → Ends Q (f a) v)
      → Ends Q (m >>= f) w
  Ends-Keeps_to Q m f failed g h passed =
      Ends-bind m f (λ e _. failed e _ (SameLedger-Good h.holds g))
        (λ a _. passed a _ h.holds (SameLedger-Good h.holds g))

  pub Ends-Keeps :
      {B : Type 0} {max : ℕ} {w : World} (m : Exec World A) (f : A → Exec World B)
      → Good max w.store
      → Ends (Keeps w) m w
      → ((a : A) (v : World)
          → SameLedger w.store v.store
          → Good max v.store
          → Ends (GoodAfter max) (f a) v)
      → Ends (GoodAfter max) (m >>= f) w
  Ends-Keeps {max = max} m f g h passed =
      Ends-Keeps_to (GoodAfter max) m f (λ _ _ good. good) g h passed

  pub Keeps-Good :
      {max : ℕ} {w : World} {m : Exec World A}
      → Good max w.store
      → Ends (Keeps w) m w
      → Ends (GoodAfter max) m w
  Keeps-Good g h = record { holds = SameLedger-Good h.holds g }

  -- Any step that writes neither part.
  pub on_store-Keeps :
      (m : Exec Store A) (w : World)
      → SameLedger w.store (m w.store).1
      → Ends (Keeps w) (on_store m) w
  unfolding on_store
  on_store-Keeps m w e = record { holds = e }

pub allocate-Keeps :
    (kind : String) (w : World) → kind ≢ "attempt" → Ends (Keeps w) (allocate kind) w
unfolding allocate
allocate-Keeps kind w other = record { holds = sequence-next_ref_ne w.store kind other }

pub ack_with-Keeps :
    (adapter : DeliveryAdapter) (ref : String) (w : World) → Ends (Keeps w) (ack_with adapter ref) w
unfolding ack_with
ack_with-Keeps adapter ref w = record { holds = SameLedger-refl w.store }

pub publish_with-Keeps :
    (adapter : DeliveryAdapter) (m : Message) (w : World)
    → Ends (Keeps w) (publish_with adapter m) w
unfolding publish_with
publish_with-Keeps adapter m w = record { holds = SameLedger-refl w.store }
