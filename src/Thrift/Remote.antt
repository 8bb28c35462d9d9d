-- ===== src/Thrift/Remote.antt =====
-- A master's workers behind their connections: what `delegator_t::operator()` gets of a worker's
-- handler through client and processor.
use infix_search.Base.{
  ℕ, suc, ◌<◌, ◌^◌, ◌≡◌, ◌≢◌, refl, ap, ◌∙◌, false, List, [], ◌∷◌, ◌++◌, is_empty, length, In,
}
use infix_search.Base.Run.{ok}
use infix_search.Thrift.{
  TProtocol, IsFaithful, Try, done, raised, crashed, out_of_fuel, protocol_error, application,
  Served, served, threw, died, RemoteInfixSearchIf,
}
use infix_search.Thrift.Client
use infix_search.Thrift.Client.Calls.{Dispatches, IfServed, delivered}
use infix_search.Thrift.Client.Methods.{find_matches-delivered}
use infix_search.Service.{
  Container, Handler, Called, returned, thrown, read_of, type_slave, find_matches,
}
use infix_search.Service.Masters.{answers, find_matches-answers}

-- What the call of a client leaves in `matches`, which is empty before. Any exception of Thrift is
-- caught. Where a worker ends the transport throws, and nothing is read then; nothing is read of
-- the result either where the answer is a `TApplicationException`. Where reading ends otherwise,
-- `left` is what was read of the strings, of which the model of `read` keeps none.
abbrev called : {S : Type 0} → List (List ℕ) → Try (Try (List (List ℕ)) × S) → Called
called left (done (done matches, s)) = returned matches
called left (done (raised (application code what), s)) = thrown []
called left (done (raised protocol_error, s)) = thrown left
called left (done (crashed, s)) = thrown left
called left (done (out_of_fuel, s)) = thrown left
called left (raised e) = thrown []
called left crashed = thrown []
called left out_of_fuel = thrown left

-- The matches that a handler returns.
abbrev pub matches_of : {S : Type 0} → Served S (List (List ℕ)) → List (List ℕ)
matches_of (served matches s) = matches
matches_of (threw what s) = []
matches_of died = []

-- Each of the workers has the property.
abbrev pub Each : (Container → Type 0) → List Container → Type 0
Each P [] = Unit
Each P (c ∷ hosts) = P c × Each P hosts

-- The workers: their handlers and states, and what serves their connections.
module _ (P : TProtocol) {S : Type 0} (worker : Container → RemoteInfixSearchIf S)
    (state : Container → S) (end : P.Wire) (serve : Container → P.Wire → S → Try (P.Wire × S))
    (rounds : ℕ) where
  unfoldable pub remote_answer : (Container → List ℕ → List (List ℕ)) → Container → List ℕ → Called
  remote_answer left c key =
      called (left c key)
        (Client.find_matches P (suc (suc (suc rounds))) (serve c) end [] key (state c))

  abbrev pub local_answer : Container → List ℕ → Called
  local_answer c key = returned (matches_of ((worker c).find_matches [] key (state c)))

  -- The worker returns less than 2^31 strings, if it returns any.
  abbrev pub Bounded : List ℕ → Container → Type 0
  Bounded key c = IfServed (λ ss. length ss < 2 ^ 31) ((worker c).find_matches [] key (state c))

  module _ (left : Container → List ℕ → List (List ℕ)) (faithful : IsFaithful P)
      (dispatches : (c : Container)
        → Dispatches P (worker c) (suc (suc (suc rounds))) end (serve c)) where
    read_of-delivered :
        (rest : List (List ℕ)) (outcome : Served S (List (List ℕ)))
        → read_of (called rest (delivered outcome)) ≡ matches_of outcome
    unfolding read_of
    read_of-delivered rest (served matches s) = refl
    read_of-delivered rest (threw what s) = refl
    read_of-delivered rest died = refl

    pub remote-one :
        (key : List ℕ) (c : Container)
        → Bounded key c
        → read_of (remote_answer left c key) ≡ matches_of ((worker c).find_matches [] key (state c))
    unfolding remote_answer
    remote-one key c bound = simp (
      find_matches-delivered faithful (worker c) rounds end (serve c) (dispatches c) [] key
          (state c) bound,
      read_of-delivered,
    )

    remote-local :
        (key : List ℕ) (hosts : List Container)
        → Each (Bounded key) hosts
        → answers (remote_answer left) key hosts ≡ answers local_answer key hosts
    unfolding answers read_of
    remote-local key [] bounded = refl
    remote-local key (c ∷ hosts) (bound, bounded) =
        ap (λ ms. ms ++ answers (remote_answer left) key hosts) (remote-one key c bound)
        ∙ ap (λ ms. matches_of ((worker c).find_matches [] key (state c)) ++ ms)
            (remote-local key hosts bounded)

    -- A master whose workers are reached through client and processor, over a faithful protocol,
    -- returns what their handlers return, in the order of the list of workers: nothing of a worker
    -- that throws or ends. This is so if the result of each has less than 2^31 strings, the pool
    -- runs every call, and there is a worker.
    pub find_matches-local :
        (fuel : ℕ) (order key : List ℕ) (found : List (List ℕ)) (x : Handler)
        → x.service_type ≢ type_slave
        → is_empty x.host_list ≡ false
        → ((j : ℕ) → j < length x.host_list → In j order)
        → Each (Bounded key) x.host_list
        → find_matches (remote_answer left) fuel order key found x
          ≡ ok (answers local_answer key x.host_list, x)
    find_matches-local fuel order key found x master some_worker complete bounded =
        find_matches-answers (remote_answer left) fuel order key found x master some_worker complete
        ∙ ap (λ m. ok (m, x)) (remote-local key x.host_list bounded)
