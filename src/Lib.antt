-- ===== src/Lib.antt =====
-- Verification library of kubepage-operator, an operator that runs home page dashboards on Kubernetes.
--
-- The operator (internal/controller) watches four kinds of objects (api/v1alpha1): a Dashboard, and the
-- ServiceCards, Bookmarks and InfoWidgets that bind to one. For every Dashboard it runs a pod
-- (internal/dashboard) that polls the widgets of the bound objects and serves a page. The pod has a
-- Role of its own, which the operator computes from the same objects that the pod reads; so the two
-- must agree on which objects are bound and on which Secrets these need.
--
-- The modules, and the code that they model:
--   Api (and below)          api/v1alpha1/*_types.go: the objects and their accessors
--   Cluster                  the reads of the Kubernetes API, as functions (parameters)
--   Controller.Condition     internal/controller/conditions.go, the types and reasons
--   Controller.Binding       conditions.go, boundDashboardCondition and namespaceDashboardCount
--   Controller.WidgetSchema  internal/dashboard/widgetschema/widgetschema.go
--   Controller.WidgetConfig  widget_config.go, and the flattening in servicecard_controller.go and
--                            infowidget_controller.go
--   Controller.Reconciler    bound_config_reconciler.go, Reconcile and mapDashboardToRequests
--   Controller.References    dashboard_rbac.go, the loops of referencedSecretNames
--   Controller.Rbac          dashboard_rbac.go, dashboardRoles, referencedSecretNames,
--                            filterLabeledSecrets, authSecretNames, reconcileRole, policyRulesEqual
--   Pod.Secrets              internal/dashboard/poller.go, resolveSecret, resolveSecretRefFields,
--                            resolveWidgetSecrets, httpClientForCACert; widget_defaults.go
--   Pod.Field, Pod.Store     widget.go, Field; store.go
--   Pod.Number               highlight.go, numericValue
--   Pod.Highlight            highlight.go
--   Pod.Htpasswd             auth.go, parseHtpasswd
--   Pod.Auth                 auth.go: loadBasicAuth, InvalidateAuthCache and
--                            basicAuthMiddleware, cut where the bcrypt comparison starts
--   Pod.PollFailure          pollfailure.go
--   Pod.Kube, Pod.BaseUrl    poller.go, resolveBaseURL and what it calls
--   Pod.PodStatus            poller.go, podStatus, podReady and podMonitorSelector
--   Pod.Monitor              poller.go, monitor and what it calls; monitor.go, monitorResult
--   Pod.Schedule, Pod.Icon   poller.go, duePoll and pruneWidgetLastPolled; icon.go
--   Pod.Poll                 poller.go, pollWidget, pollWidgetSample, mergeMonitorIntoStoredCard
--   Pod.ClientCache          clientcache.go
--   Pod.Discovery            discovery.go
--   Pod.Merge                server.go, mergeServiceCards and what it calls
--   Pod.Broadcast            sse.go, and the event loop of handleEvents (server.go)
--   Pod.MonitorMetrics       poller.go, the keys of the monitorUp series and pruneMonitorMetrics
--   Pod.Work, Pod.EntryPoll, Pod.HeaderPoll, Pod.Job
--                            poller.go: the state of a cycle, and the closures that pollOnce runs,
--                            pollDiscoveredService and pollInfoWidget
--   Pod.Cycle                poller.go, pollOnce
--   Pod.HeaderWidgets        site.go, headerWidgets
--   Pod.Header               server.go, buildHeader and what it calls
--   Prelude (and below)      the tests, lists, maps, orders, sorts, texts and results that they share
--   Fixtures                 the inputs of the tests
--
-- Definitions stand in a component's own module and keep the names of the Go code in snake case; their
-- proofs and tests stand in the modules below it. A Go map is an association list whose order is that
-- of a range loop over it. Errors are values: Result holds the text of a Go error. A sort is insertion
-- sort by the same comparison.
--
-- Parameters: the Kubernetes API (Cluster), the API library's condition functions and a kind's
-- accessors (Reconciler.Api, Reconciler.Adapter), the verbs of fmt (Prelude.Format), json.Unmarshal,
-- the regular expressions, case folding and floats of Go's library (Pod.Highlight.Engine), bcrypt and
-- the splitting of a file into trimmed lines (Pod.Htpasswd.Passwords), and the probe of a URL. Every
-- loop is over a list, so no fuel is used, but for the digits of a number, which are fewer than its
-- fuel, the number and one. The difference of two widget indexes wraps around at 64 bits; no other
-- modelled arithmetic can overflow.
--
-- The pool of a poll cycle takes its closures up in any order, an argument of poll_once; each is one
-- step, and the widgets of an entry follow its monitor. The event streams of open pages interleave
-- with the cycles by the steps of Pod.Broadcast.Delivery.
--
-- Not modelled: the tabs and groups of the page and the rest of the site's content (planned), HTTP and templates,
-- the use of the client cache during a cycle, the widgets' clients for third-party services, the objects that the
-- Dashboard reconciler builds, the preview tool, generated code.
pub mod Prelude
pub mod Api
pub mod Cluster
pub mod Controller
pub mod Pod
pub mod Fixtures
