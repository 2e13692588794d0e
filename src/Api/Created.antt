-- ===== src/Api/Created.antt =====
-- `create_case` and `get_case`, over the in-memory case repository.
use multi_agent_system.Base.{
  [], ◌∷◌, ◌++◌, some, true, false, ◌≡◌, refl, inr, arith, nat_eq, str_eq_iff,
}
use multi_agent_system.Base.Dict
use multi_agent_system.Base.Dict.{get-put}
use multi_agent_system.Exec.{ok, err, http_error}
use multi_agent_system.Persistence.{World, now_utc, uuid4}
use multi_agent_system.Schemas.{Principal, SupplierCase, SupplierCaseCreate}
use multi_agent_system.Cases.Memory
use multi_agent_system.Api.Container.{ApplicationContainer}
use multi_agent_system.Api.Guards.{may_see}
use multi_agent_system.Api.Reviews.{create_case, get_case, new_case, created_event}
use multi_agent_system.Api.Access.{seen, hidden}
use multi_agent_system.Api.Trail.{in_memory, trail, appends_event}
use multi_agent_system.Api.Settled.{found_case}

-- The case that the request makes, under the next identifier and time.
abbrev pub case_made : SupplierCaseCreate → Principal → World → SupplierCase
case_made payload p w =
    new_case payload p (w.host.random_uuids w.host.uuids_drawn) (w.host.clock w.host.clock_reads)

own_case :
    (payload : SupplierCaseCreate) (p : Principal) (w : World)
    → may_see p (case_made payload p w) ≡ true
unfolding may_see new_case
own_case payload p w = let same = (str_eq_iff p.tenant_id p.tenant_id).1 refl in ground arith

-- With the in-memory case repository, a case that is created is returned as it was requested, for
-- the tenant of the principal; the principal reads it back, a principal of another tenant who is
-- no administrator is answered with status 404, and the trail of the case gets the event of its
-- creation.
pub create_case-get_case :
    (d : ApplicationContainer) (payload : SupplierCaseCreate) (p q : Principal) (w : World)
    → may_see q (case_made payload p w) ≡ false
    → let c = case_made payload p w in
      let t = (create_case (in_memory d) payload p w).1 in
      ((create_case (in_memory d) payload p w).0 ≡ ok c)
      × (get_case (in_memory d) c.id p t ≡ (ok c, t))
      × (get_case (in_memory d) c.id q t ≡ (err (http_error 404), t))
      × (trail t c.id ≡ trail w c.id ++ created_event c p ∷ [])
unfolding create_case get_case Memory.create
create_case-get_case d payload p q w foreign =
    let c = case_made payload p w in
    let v : World = (Memory.create c (uuid4 (now_utc w).1).1).1 in
    let stored = get-put w.case_store.cases c.id c.id c in
    let known : Dict.get v.case_store.cases c.id ≡ some c = ground arith in
    let about : (created_event c p).case_id ≡ c.id = unfold created_event in refl in
    let (x, t, appended, grown, cases, reviews, index) =
      appends_event (created_event c p) c v (ground arith) in
    let found = found_case c.id c t (ground arith) in
    let mine = seen (in_memory d) c.id p c t found (own_case payload p w) in
    let theirs = hidden (in_memory d) c.id q t (inr (c, found, foreign)) in
    (ground arith, ground arith, ground arith, ground arith)
