-- ===== src/Ws/Handlers.antt =====
-- Subscribing and unsubscribing.
use family_messenger_e2e.Base.{
  ℕ, ◌≡◌, Text, Bool, true, false, not, ◌&&◌, List, [], ◌∷◌, ◌++◌, any, filter, ◌==◌, ==_iff, ◌===◌,
  ===_iff, ◌or_else◌, arith, if◌then◌else◌,
}
use family_messenger_e2e.Base.Dict.{lookup, lookup-insert}
use family_messenger_e2e.Ws.Connection.{WsClient, added, on, off}

-- Is a handler called on frames of a type?
abbrev pub is_handler : Text → ℕ → WsClient → Bool
is_handler type h c = any (λ g. g == h) (lookup type c.handlers or_else [])

any-last :
    (h g : ℕ) (set : List ℕ)
    → any (λ k. k == g) (set ++ h ∷ []) ≡ (if h == g then true else any (λ k. k == g) set)
unfolding any
any-last h g [] = ground arith
any-last h g (k ∷ set) = ground (arith, any-last h g set)

any-added :
    (h g : ℕ) (set : List ℕ)
    → any (λ k. k == g) (added h set) ≡ (if h == g then true else any (λ k. k == g) set)
any-added h g set = ground (arith, any-last h g set, ==_iff h g)

any-removed :
    (h g : ℕ) (set : List ℕ)
    → any (λ k. k == g) (filter (λ k. not (k == h)) set)
      ≡ (if h == g then false else any (λ k. k == g) set)
unfolding any filter
any-removed h g [] = ground arith
any-removed h g (k ∷ set) = ground (arith, any-removed h g set)

-- Subscribing makes a handler one of its type, and the returned function makes it none; no other
-- handler and no other type is touched.
pub is_handler-on_off :
    (type other : Text) (h g : ℕ) (c : WsClient)
    → (is_handler other g (on type h c)
        ≡ (if type === other && h == g then true else is_handler other g c))
      × (is_handler other g (off type h c)
          ≡ (if type === other && h == g then false else is_handler other g c))
unfolding on off
is_handler-on_off type other h g c =
    let set = lookup type c.handlers or_else [] in
    let kept = filter (λ k. not (k == h)) set in
    ground (
      arith,
      ===_iff type other,
      lookup-insert type other (added h set) c.handlers,
      lookup-insert type other kept c.handlers,
      any-added h g set,
      any-removed h g set,
    )
