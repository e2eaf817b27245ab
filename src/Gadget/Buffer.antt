-- ===== src/Gadget/Buffer.antt =====
-- The timer of `EventBuffer` in frontend/src/lib/handlers/gadget.handler.svelte.ts: messages wait in
-- a buffer, a timer takes them all, and what arrives during a flush waits for the next one. The
-- flush is asynchronous, so its start and its end are two steps.
pub mod Order
use ig_desktop.Prelude.{ℕ, Bool, true, false, ◌&&◌, ◌≡◌, not, List, [], ◌∷◌, ◌++◌, if◌then◌else◌}

module _ {ℓ} (M : Type ℓ) where
  -- `timer` is that a timeout is set. `taken` is `toProcess` of the flush that runs, and `delivered`
  -- is what the flushes that ended have processed.
  pub record EventBuffer : Type ℓ where
    pub buffer : List M
    pub timer : Bool
    pub flushing : Bool
    pub taken : List M
    pub delivered : List M

module _ {ℓ} {M : Type ℓ} where
  unfoldable pub empty_buffer : EventBuffer M
  empty_buffer = record { buffer = []; timer = false; flushing = false; taken = []; delivered = [] }

  unfoldable pub add_event : M → EventBuffer M → EventBuffer M
  add_event msg b = record b {
    buffer = b.buffer ++ msg ∷ [];
    timer = if not b.timer && not b.flushing then true else b.timer;
  }

  -- The timeout fires: the start of `flush`.
  unfoldable pub start_flush : EventBuffer M → EventBuffer M
  start_flush b = record b { timer = false; flushing = true; taken = b.buffer; buffer = [] }

  abbrev pub is_empty_list : List M → Bool
  is_empty_list [] = true
  is_empty_list (m ∷ ms) = false

  -- The end of `flush`, all of `taken` processed.
  unfoldable pub end_flush : EventBuffer M → EventBuffer M
  end_flush b = record b {
    flushing = false;
    taken = [];
    delivered = b.delivered ++ b.taken;
    timer = if not (is_empty_list b.buffer) && not b.timer then true else b.timer;
  }

  -- The steps of the event loop, with the messages that have arrived so far.
  pub data Reaches : List M → EventBuffer M → Type ℓ where
    init : Reaches [] empty_buffer
    arrive :
        (msgs : List M) (b : EventBuffer M) (msg : M)
        → Reaches msgs b
        → Reaches (msgs ++ msg ∷ []) (add_event msg b)
    fire :
        (msgs : List M) (b : EventBuffer M)
        → b.timer ≡ true
        → Reaches msgs b
        → Reaches msgs (start_flush b)
    finish :
        (msgs : List M) (b : EventBuffer M)
        → b.flushing ≡ true
        → Reaches msgs b
        → Reaches msgs (end_flush b)
