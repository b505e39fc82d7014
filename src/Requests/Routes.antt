-- ===== src/Requests/Routes.antt =====
-- RegisterRoute and CreateAPIGroup of commons/routes/router.go, the routes of internal/routes, and the
-- route initializers of internal/config/ingestion_providers.go and
-- internal/config/scheduler_providers.go.
--
-- A router is what gin has been told, the oldest first. H is gin.HandlerFunc, and the parameters of
-- this type are the handlers that HandleFunc makes of the services.
use dahlia.Common.{
  Bool, true, false, not, ◌&&◌, ◌||◌, ◌≡◌, refl, Option, none, some, List, [], ◌∷◌, ◌++◌, Text,
  codes, text_eq, if◌then◌else◌,
}

-- group.GET, group.POST, ...
pub data Verb : Type 0 where
  get post put delete patch : Verb

pub record Registration (H : Type 0) : Type 0 where
  pub group : Text
  pub verb : Verb
  pub path : Text
  pub handler : H

pub record RouteOptions (H : Type 0) : Type 0 where
  pub path : Text
  pub method : Text
  pub service_func : H
  pub require_auth : Bool

-- the switch of RegisterRoute
unfoldable pub verb_of : Text → Option Verb
verb_of method =
    if text_eq method (codes "GET")
    then some get
    else if text_eq method (codes "POST")
    then some post
    else if text_eq method (codes "PUT")
    then some put
    else if text_eq method (codes "DELETE")
    then some delete
    else if text_eq method (codes "PATCH")
    then some patch
    else none

unfoldable pub create_api_group : Text → Text
create_api_group version = codes "/api/" ++ version

module _ {H : Type 0} where
  registered : Text → RouteOptions H → Option Verb → List (Registration H)
  registered group options none = []
  registered group options (some verb) =
      record { group = group; verb = verb; path = options.path; handler = options.service_func }
      ∷ []

  -- a method that is not supported is logged, and the route is left out
  unfoldable pub register_route :
      Text → RouteOptions H → List (Registration H) → List (Registration H)
  unfolding registered verb_of
  register_route group options router = router ++ registered group options (verb_of options.method)

  -- the options of a route, none of which requires authentication
  abbrev options : (path method : Text) → H → RouteOptions H
  options path method service = record {
    path = path;
    method = method;
    service_func = service;
    require_auth = false;
  }

  unfoldable pub init_health_routes : H → List (Registration H) → List (Registration H)
  unfolding register_route create_api_group
  init_health_routes health_service router =
      let api_v1 = create_api_group (codes "v1") in
      register_route api_v1 (options (codes "/health") (codes "GET") health_service) router

  unfoldable pub init_run_routes :
      (list_runs_service get_run_service : H) → List (Registration H) → List (Registration H)
  unfolding register_route create_api_group
  init_run_routes list_runs_service get_run_service router =
      let api_v1 = create_api_group (codes "v1") in
      let listed =
        register_route api_v1 (options (codes "/runs") (codes "GET") list_runs_service) router in
      register_route api_v1 (options (codes "/runs/:id") (codes "GET") get_run_service) listed

  unfoldable pub init_scheduler_routes : H → List (Registration H) → List (Registration H)
  unfolding register_route create_api_group
  init_scheduler_routes schedule_service router =
      let api_v1 = create_api_group (codes "v1") in
      register_route api_v1 (options (codes "/schedule") (codes "POST") schedule_service) router

  unfoldable pub init_signal_routes : H → List (Registration H) → List (Registration H)
  unfolding register_route create_api_group
  init_signal_routes create_signal_service router =
      let api_v1 = create_api_group (codes "v1") in
      register_route api_v1 (options (codes "/signals") (codes "POST") create_signal_service) router

  unfoldable pub init_workflow_routes :
      (create_workflow_service get_workflow_service list_workflows_service : H)
      → List (Registration H)
      → List (Registration H)
  unfolding register_route create_api_group
  init_workflow_routes create_workflow_service get_workflow_service list_workflows_service router =
      let api_v1 = create_api_group (codes "v1") in
      let created =
        register_route api_v1 (options (codes "/workflows") (codes "POST") create_workflow_service)
          router in
      let shown =
        register_route api_v1 (options (codes "/workflows/:id") (codes "GET") get_workflow_service)
          created in
      register_route api_v1 (options (codes "/workflows") (codes "GET") list_workflows_service)
        shown

-- two routes that gin would refuse to have together, with a panic
unfoldable pub conflicts : {H : Type 0} → Registration H → Registration H → Bool
conflicts r s = same_verb r.verb s.verb && text_eq (r.group ++ r.path) (s.group ++ s.path)
  where
    same_verb : Verb → Verb → Bool
    same_verb get get = true
    same_verb post post = true
    same_verb put put = true
    same_verb delete delete = true
    same_verb patch patch = true
    same_verb _ _ = false

unfoldable pub conflict_with : {H : Type 0} → Registration H → List (Registration H) → Bool
unfolding conflicts
conflict_with r [] = false
conflict_with r (s ∷ router) = conflicts r s || conflict_with r router

unfoldable pub is_apart : {H : Type 0} → List (Registration H) → Bool
unfolding conflict_with
is_apart [] = true
is_apart (r ∷ router) = not (conflict_with r router) && is_apart router

-- the services of the handlers of the ingestion process
pub record IngestionServices (H : Type 0) : Type 0 where
  pub health_service : H
  pub create_signal_service : H
  pub create_workflow_service : H
  pub get_workflow_service : H
  pub list_workflows_service : H
  pub list_runs_service : H
  pub get_run_service : H

unfoldable pub provide_ingestion_route_initializer :
    {H : Type 0} → IngestionServices H → List (Registration H) → List (Registration H)
unfolding init_run_routes init_workflow_routes init_signal_routes init_health_routes
provide_ingestion_route_initializer s router =
    init_run_routes s.list_runs_service s.get_run_service (
      init_workflow_routes s.create_workflow_service s.get_workflow_service s.list_workflows_service
        (init_signal_routes s.create_signal_service (init_health_routes s.health_service router)))

unfoldable pub provide_scheduler_route_initializer :
    {H : Type 0}
    → (health_service schedule_service : H) → List (Registration H)
    → List (Registration H)
unfolding init_scheduler_routes init_health_routes
provide_scheduler_route_initializer health_service schedule_service router =
    init_scheduler_routes schedule_service (init_health_routes health_service router)

-- No two routes of the ingestion process have the same method and path, whatever the handlers.
ingestion_routes-apart :
    {H : Type 0} (s : IngestionServices H)
    → is_apart (provide_ingestion_route_initializer s []) ≡ true
unfolding is_apart provide_ingestion_route_initializer text_eq
ingestion_routes-apart s = refl

-- The same of the scheduler process.
scheduler_routes-apart :
    {H : Type 0} (health_service schedule_service : H)
    → is_apart (provide_scheduler_route_initializer health_service schedule_service []) ≡ true
unfolding is_apart provide_scheduler_route_initializer text_eq
scheduler_routes-apart health_service schedule_service = refl
