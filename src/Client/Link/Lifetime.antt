-- ===== src/Client/Link/Lifetime.antt =====
-- What an attempt to connect leaves allocated, and what the clean-up behind it finds.
use secure_chat.Prelude.{
  ℕ, ◌<◌, ◌≡◌, Bool, true, false, List, [], ◌∷◌, Run, fault, bad_pointer, null_pointer, Returns,
}
use secure_chat.Client.Link.{Handles, cleanup_client_connection}

-- The numbers are below `n`.
abbrev pub AllBelow : ℕ → List ℕ → Type 0
AllBelow n [] = Unit {0}
AllBelow n (x ∷ xs) = (x < n) × AllBelow n xs

-- The SSL objects have numbers that were used.
pub record IsNumbered (h : Handles) : Type 0 where
  pub ssl : AllBelow h.next h.live_ssl

-- The same is allocated and open as before.
abbrev pub Same : Handles → Handles → Type 0
Same h c = (c.live_ssl ≡ h.live_ssl) × (c.live_ctx ≡ h.live_ctx) × (c.open_sockets ≡ h.open_sockets)

-- `cleanup_client_connection` gives back what came on top of `h`, and nothing else.
abbrev pub CleansTo : Handles → Handles → Type 0
CleansTo h r = Returns (cleanup_client_connection r) (Same h)

-- What becomes of an attempt, by the answers to `socket`, `connect`, `SSL_CTX_new`, `SSL_new` and
-- `SSL_connect`.
abbrev pub Fate : Bool → Bool → Bool → Bool → Bool → Handles → Run (Handles × Bool) → Type 0
Fate true true true true true h run = Returns run (λ r. (r.1 ≡ true) × CleansTo h r.0)
Fate true true true true false h run = Returns run (λ r.
    (r.1 ≡ false)
    × (r.0.live_ssl ≡ h.live_ssl)
    × (r.0.open_sockets ≡ h.open_sockets)
    × (cleanup_client_connection r.0 ≡ fault bad_pointer))
Fate true true true false z h run = run ≡ fault null_pointer
Fate true true false y z h run = Returns run (λ r. (r.1 ≡ false) × Same h r.0)
Fate true false x y z h run = Returns run (λ r. (r.1 ≡ false) × Same h r.0)
Fate false c x y z h run = Returns run (λ r. (r.1 ≡ false) × Same h r.0)
