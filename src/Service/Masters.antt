-- ===== src/Service/Masters.antt =====
-- A master returns what its workers answer, in the order of the list of workers, in whatever order
-- the pool calls them.
use infix_search.Base.{
  ℕ, zero, suc, ◌<◌, ◌≡◌, ◌≢◌, refl, sym, ap, ◌∙◌, subst, false, List, [], ◌∷◌, ◌++◌, ==_ne,
  is_empty, length, In, inl, inr, arith,
}
use infix_search.Base.Run.{ok}
use infix_search.Service.{
  Container, Handler, type_slave, Called, Delegator, read_of, delegators, joined, call, call_at,
  find_matches_threaded, find_matches,
}

module _ (answer : Container → List ℕ → Called) where
  -- The answers of the workers, one behind the other.
  unfoldable pub answers : List ℕ → List Container → List (List ℕ)
  answers key [] = []
  answers key (c ∷ hosts) = read_of (answer c key) ++ answers key hosts

  -- The delegator at this place has run.
  abbrev HasRun : ℕ → List Delegator → Type 0
  HasRun i [] = Unit
  HasRun zero (d ∷ ds) = d.matches ≡ read_of (answer d.container d.key)
  HasRun (suc i) (d ∷ ds) = HasRun i ds

  -- The delegators ask these workers for the key.
  abbrev Asks : List ℕ → List Container → List Delegator → Type 0
  Asks key [] [] = Unit
  Asks key [] (d ∷ ds) = ⊥
  Asks key (c ∷ hosts) [] = ⊥
  Asks key (c ∷ hosts) (d ∷ ds) = (d.container ≡ c) × (d.key ≡ key) × Asks key hosts ds

  call_at-HasRun : (i : ℕ) (ds : List Delegator) → HasRun i (call_at answer i ds)
  unfolding call_at call
  call_at-HasRun i [] = tt
  call_at-HasRun zero (d ∷ ds) = refl
  call_at-HasRun (suc i) (d ∷ ds) = call_at-HasRun i ds

  call_at-keeps : (i j : ℕ) (ds : List Delegator) → HasRun j ds → HasRun j (call_at answer i ds)
  unfolding call_at call
  call_at-keeps i j [] ran = tt
  call_at-keeps zero zero (d ∷ ds) ran = refl
  call_at-keeps zero (suc j) (d ∷ ds) ran = ran
  call_at-keeps (suc i) zero (d ∷ ds) ran = ran
  call_at-keeps (suc i) (suc j) (d ∷ ds) ran = call_at-keeps i j ds ran

  call_at-Asks :
      (i : ℕ) (key : List ℕ) (hosts : List Container) (ds : List Delegator)
      → Asks key hosts ds
      → Asks key hosts (call_at answer i ds)
  unfolding call_at call
  call_at-Asks i key [] [] asks = tt
  call_at-Asks i key (c ∷ hosts) [] asks = absurd asks
  call_at-Asks i key [] (d ∷ ds) asks = absurd asks
  call_at-Asks zero key (c ∷ hosts) (d ∷ ds) asks = asks
  call_at-Asks (suc i) key (c ∷ hosts) (d ∷ ds) (a, b, asks) =
      (a, b, call_at-Asks i key hosts ds asks)

  threaded-keeps :
      (order : List ℕ) (j : ℕ) (ds : List Delegator)
      → HasRun j ds
      → HasRun j (find_matches_threaded answer order ds)
  unfolding find_matches_threaded
  threaded-keeps [] j ds ran = ran
  threaded-keeps (i ∷ order) j ds ran =
      threaded-keeps order j (call_at answer i ds) (call_at-keeps i j ds ran)

  threaded-HasRun :
      (order : List ℕ) (j : ℕ) (ds : List Delegator)
      → In j order
      → HasRun j (find_matches_threaded answer order ds)
  unfolding find_matches_threaded
  threaded-HasRun [] j ds i = absurd i
  threaded-HasRun (k ∷ order) j ds (inl e) =
      threaded-keeps order j (call_at answer k ds)
        (subst (λ x. HasRun x (call_at answer k ds)) (sym e) (call_at-HasRun k ds))
  threaded-HasRun (k ∷ order) j ds (inr i) = threaded-HasRun order j (call_at answer k ds) i

  threaded-Asks :
      (order key : List ℕ) (hosts : List Container) (ds : List Delegator)
      → Asks key hosts ds
      → Asks key hosts (find_matches_threaded answer order ds)
  unfolding find_matches_threaded
  threaded-Asks [] key hosts ds asks = asks
  threaded-Asks (i ∷ order) key hosts ds asks =
      threaded-Asks order key hosts (call_at answer i ds) (call_at-Asks i key hosts ds asks)

  delegators-Asks : (key : List ℕ) (hosts : List Container) → Asks key hosts (delegators key hosts)
  unfolding delegators
  delegators-Asks key [] = tt
  delegators-Asks key (c ∷ hosts) = (refl, refl, delegators-Asks key hosts)

  joined-answers :
      (key : List ℕ) (hosts : List Container) (ds : List Delegator)
      → Asks key hosts ds
      → ((j : ℕ) → j < length hosts → HasRun j ds)
      → joined ds ≡ answers key hosts
  unfolding joined answers
  joined-answers key [] [] asks ran = refl
  joined-answers key [] (d ∷ ds) asks ran = absurd asks
  joined-answers key (c ∷ hosts) [] asks ran = absurd asks
  joined-answers key (c ∷ hosts) (d ∷ ds) (a, b, asks) ran =
      ap (λ m. m ++ joined ds)
        (ran 0 (omega arith)
          ∙ ap (λ x. read_of (answer x d.key)) a
          ∙ ap (λ k. read_of (answer c k)) b)
      ∙ ap (λ m. read_of (answer c key) ++ m)
          (joined-answers key hosts ds asks (λ j less. ran (suc j) (omega arith)))

  -- `findMatches` on a master that has workers, when the pool has run every delegator: what the
  -- workers answer, and what a worker has sent before an exception, in the order of the list.
  pub find_matches-answers :
      (fuel : ℕ) (order key : List ℕ) (found : List (List ℕ)) (x : Handler)
      → x.service_type ≢ type_slave
      → is_empty x.host_list ≡ false
      → ((j : ℕ) → j < length x.host_list → In j order)
      → find_matches answer fuel order key found x ≡ ok (answers key x.host_list, x)
  unfolding find_matches
  find_matches-answers fuel order key found x master some_worker complete =
      rw (==_ne x.service_type type_slave master, some_worker)
        (ap (λ m. ok (m, x))
          (joined-answers key x.host_list _
            (threaded-Asks order key x.host_list _ (delegators-Asks key x.host_list))
            (λ j less. threaded-HasRun order j _ (complete j less))))
