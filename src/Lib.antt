-- ===== src/Lib.antt =====
-- The DataKit operator: an admission webhook that injects agents into pods, the election of the
-- DataKit leader over Kubernetes Leases, and the logging configurations of the cluster.
--
-- The parts and where they are modelled:
-- Common: lists, texts, numbers and tests that the parts share; Kubernetes: the fields of the
-- Kubernetes objects that the operator reads or writes.
-- Election: apis/election. Lease is the stored record with acquireLease and newLease, Observation the
-- two slots of lease_observation.go, Metrics the counters, Coordinator `elect` of coordinator.go
-- over a Cluster, a record of the calls that `elect` makes (store, cache, clocks), LeaseName
-- `leaseName`, Handler the requests and the readiness check of handler.go. The world behind the
-- cluster is a type parameter, and every call returns the world after it, so that other operators may
-- act between two calls; Coordinator.Rounds says with which observations
-- and in which outside state a request reads the store, and Coordinator.History has the versions that a store may hold one after another, and
-- LeaseCache the readiness of the cache of kubernetes.go under the calls of the informer.
-- Manager: pkg/manager, the only code that adds containers, volumes, mounts and variables to a pod.
-- Config: config. Selector, Resource and Rules are the files of these names, Legacy is legacy.go,
-- Setup is config.go. The compilers of regular expressions, label selectors and quantities are the
-- record Compilers.
-- Webhook: apis/webhook. Patch is pod_patch.go, with Patch.Apply for what the receiver of a patch does
-- by RFC 6902; Mutate and Handler are mutate.go and handle.go, over the five injectors as a record, and
-- Chain puts the program's injectors there, with the configuration that they read.
-- Logging: apis/logging, the cache of ClusterLoggingConfig objects with its worker, and its handler.
-- Injector: apis/webhook/injector. Utils and Image are utils.go, Profiler, Flameshot, Logfwd and Tracing
-- the files of these names, DdTrace is ddtrace.go and OTel is otel.go. Setting has the libraries that they
-- share, Added the laws of an injector that adds a container, Grown what an injection may do to a pod,
-- Unfailing that no injector panics.
-- Mutator.Logging: apis/webhook/mutator. All are over the pod and the rules of the configuration.
-- EnvBuilder: pkg/envbuilder, from configured values to environment variables.
-- Tests: the theorems at concrete inputs.
--
-- How they interact: the configuration is set up once (Config.Setup) and its rules are matched by the
-- injectors; the injectors build variables with EnvBuilder and change the pod with Manager; the
-- handler compares the pod before and after and sends the patch (Webhook.Patch). The election and the
-- logging configurations are separate services of the same server.
--
-- Bounds: an epoch of a Lease is an int32 and wraps around, a counter is a uint64, an attempt of
-- `elect` is counted up to maxCASAttempts, which is the fuel of its loop, so the fuel is what the code
-- allows and never runs out earlier. Elapsed times are natural numbers of nanoseconds, for which the
-- subtraction that stops at 0 is the `max(0, …)` of the code. Other loops are structural.
--
-- Taken as arguments: the compilers of regular expressions, of label selectors (pkg/labels, a copy of
-- the Kubernetes library) and of quantities, the JSON decoders, the digest, and the functions
-- IsConfigMapKey and DeepDerivative of the Kubernetes libraries.
--
-- A panic of resource.MustParse is the result `none` of an injection and the failure `panics` of the chain
-- of the webhook. Like a review without a request it leaves HandleInject without an answer; what gin's
-- Recovery sends then is not modelled.
--
-- Not modelled: the generated clients, informers and listers, logging and start-up code, and the pods of
-- apis/cluster. Of the Kubernetes objects only the fields that the operator reads or writes are there,
-- and nil and empty lists are not told apart.
mod Common
pub mod Kubernetes
pub mod Manager
pub mod Election
pub mod Webhook
pub mod Config
pub mod Logging
pub mod EnvBuilder
pub mod Injector
pub mod Mutator
mod Tests
