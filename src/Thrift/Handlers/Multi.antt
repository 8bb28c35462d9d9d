-- ===== src/Thrift/Handlers/Multi.antt =====
-- `RemoteInfixSearchMultiface` calls its interfaces in order, each with what those before it left,
-- up to the first that throws.
use infix_search.Base.{ℕ, ◌≡◌, refl, List, [], ◌∷◌, ◌++◌}
use infix_search.Thrift.{Served, served, threw, died, RemoteInfixSearchIf}
use infix_search.Thrift.Handlers.{
  ◌>>=◌, ping_each, find_matches_each, register_service_each, deregister_service_each, multiface,
}

then_assoc :
    {S A B C : Type 0} (m : Served S A) (f : A → S → Served S B) (g : B → S → Served S C)
    → (m >>= λ a s. f a s >>= g) ≡ (m >>= f >>= g)
then_assoc (served a s) f g = refl
then_assoc (threw what s) f g = refl
then_assoc died f g = refl

module _ {S : Type 0} (g : RemoteInfixSearchIf S) (gs : List (RemoteInfixSearchIf S)) where
  ping-append :
      (f : RemoteInfixSearchIf S) (fs : List (RemoteInfixSearchIf S)) (s : S)
      → ping_each (f ∷ (fs ++ g ∷ gs)) s ≡ (ping_each (f ∷ fs) s >>= λ _ s'. ping_each (g ∷ gs) s')
  unfolding ping_each
  ping-append f [] s = refl
  ping-append f (f' ∷ fs) s = simp (ping-append f' fs, then_assoc)

  find_matches-append :
      (f : RemoteInfixSearchIf S) (fs : List (RemoteInfixSearchIf S)) (found : List (List ℕ))
      (key : List ℕ) (s : S)
      → find_matches_each (f ∷ (fs ++ g ∷ gs)) found key s ≡ (
          find_matches_each (f ∷ fs) found key s >>= λ found' s'.
          find_matches_each (g ∷ gs) found' key s')
  unfolding find_matches_each
  find_matches-append f [] found key s = refl
  find_matches-append f (f' ∷ fs) found key s = simp (find_matches-append f' fs, then_assoc)

  register_service-append :
      (f : RemoteInfixSearchIf S) (fs : List (RemoteInfixSearchIf S)) (host : List ℕ) (port : ℕ)
      (s : S)
      → register_service_each (f ∷ (fs ++ g ∷ gs)) host port s ≡ (
          register_service_each (f ∷ fs) host port s >>= λ _ s'.
          register_service_each (g ∷ gs) host port s')
  unfolding register_service_each
  register_service-append f [] host port s = refl
  register_service-append f (f' ∷ fs) host port s = simp (register_service-append f' fs, then_assoc)

  deregister_service-append :
      (f : RemoteInfixSearchIf S) (fs : List (RemoteInfixSearchIf S)) (host : List ℕ) (port : ℕ)
      (s : S)
      → deregister_service_each (f ∷ (fs ++ g ∷ gs)) host port s ≡ (
          deregister_service_each (f ∷ fs) host port s >>= λ _ s'.
          deregister_service_each (g ∷ gs) host port s')
  unfolding deregister_service_each
  deregister_service-append f [] host port s = refl
  deregister_service-append f (f' ∷ fs) host port s =
      simp (deregister_service-append f' fs, then_assoc)

  -- Every method over some interfaces and then others is the method over the first, and, unless
  -- one of them throws, over the others with what the first left: the vector of matches and the
  -- state.
  multiface-append :
      (f : RemoteInfixSearchIf S) (fs : List (RemoteInfixSearchIf S)) (s : S)
      → ((multiface (f ∷ (fs ++ g ∷ gs))).ping s
          ≡ ((multiface (f ∷ fs)).ping s >>= λ _ s'. (multiface (g ∷ gs)).ping s'))
        × ((found : List (List ℕ)) (key : List ℕ)
            → (multiface (f ∷ (fs ++ g ∷ gs))).find_matches found key s ≡ (
                (multiface (f ∷ fs)).find_matches found key s >>= λ found' s'.
                (multiface (g ∷ gs)).find_matches found' key s'))
        × ((host : List ℕ) (port : ℕ)
            → (multiface (f ∷ (fs ++ g ∷ gs))).register_service host port s ≡ (
                (multiface (f ∷ fs)).register_service host port s >>= λ _ s'.
                (multiface (g ∷ gs)).register_service host port s'))
        × ((host : List ℕ) (port : ℕ)
            → (multiface (f ∷ (fs ++ g ∷ gs))).deregister_service host port s ≡ (
                (multiface (f ∷ fs)).deregister_service host port s >>= λ _ s'.
                (multiface (g ∷ gs)).deregister_service host port s'))
  multiface-append f fs s = (
    ping-append f fs s,
    λ found key. find_matches-append f fs found key s,
    λ host port. register_service-append f fs host port s,
    λ host port. deregister_service-append f fs host port s,
  )
