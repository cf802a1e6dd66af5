-- ===== src/Application/Identities.antt =====
-- The nodes that the identities of a map name.
use mathlib.Core.List.{Memᴰ}
use client_api.Prelude.{
  Bytes, bytes_eq, ◌≡◌, refl, ap, sym, bytes_beq, ◌⊎◌, eq_of_beq, false, List, [], ◌∷◌, ◌==◌,
  nat_eq, arith, Bool-cases, inl, inr,
}
use client_api.Types.Node.{Peer}
use client_api.Types.Map.{NetworkMapSnapshot}
use client_api.Application.{identity_of, identities, add_peers}

-- What a map of identities reads at a key is an entry, unless it is nothing.
pub identity_of-Memᴰ :
    (known : List (Bytes × Bytes)) (id : Bytes)
    → (identity_of known id == []) ≡ false
    → Memᴰ (id, identity_of known id) known
unfolding identity_of bytes_beq
identity_of-Memᴰ [] id h = absurd (ground arith)
identity_of-Memᴰ ((k, v) ∷ entries) id h = elim (Bool-cases (k == id)) [
  | inl e ↦ rw e (Memᴰ.head (ap (λ n. (n, v)) (sym (eq_of_beq k id e))))
  | inr e ↦ rw e (Memᴰ.tail (identity_of-Memᴰ entries id (rw e at h)))
]

-- The node of the map with this ID and key: the node itself, or a peer.
pub data IsNode (s : NetworkMapSnapshot) (id public_key : Bytes) : Type 0 where
  own : s.node.id ≡ id → s.node.public_key ≡ public_key → IsNode s id public_key
  peer :
      (p : Peer) → Memᴰ p s.peers → p.id ≡ id → p.public_key ≡ public_key → IsNode s id public_key

add_peers-Memᴰ :
    (entries : List (Bytes × Bytes)) (ps : List Peer) (e : Bytes × Bytes)
    → Memᴰ e (add_peers entries ps)
    → Memᴰ e entries ⊎ ((p : Peer) × Memᴰ p ps × (e ≡ (p.id, p.public_key)))
add_peers-Memᴰ entries [] e m = inl m
add_peers-Memᴰ entries (p ∷ ps) e m =
    elim (add_peers-Memᴰ ((p.id, p.public_key) ∷ entries) ps e m) [
      | inl (Memᴰ.head q) ↦ inr (p, Memᴰ.head refl, q)
      | inl (Memᴰ.tail n) ↦ inl n
      | inr (r, n, q) ↦ inr (r, Memᴰ.tail n, q)
    ]

pub identities-IsNode :
    (s : NetworkMapSnapshot) (id public_key : Bytes)
    → Memᴰ (id, public_key) (identities s)
    → IsNode s id public_key
unfolding identities
identities-IsNode s id public_key m =
    elim (add_peers-Memᴰ ((s.node.id, s.node.public_key) ∷ []) s.peers (id, public_key) m) [
      | inl (Memᴰ.head q) ↦ IsNode.own (ap (λ e. e.0) (sym q)) (ap (λ e. e.1) (sym q))
      | inl (Memᴰ.tail n) ↦ elim n [ ]
      | inr (p, n, q) ↦ IsNode.peer p n (ap (λ e. e.0) (sym q)) (ap (λ e. e.1) (sym q))
    ]
