-- ===== src/Webhook.antt =====
-- The admission webhook (apis/webhook): the mutation of a pod and the JSON patch that carries it.
pub mod Patch
pub mod Mutate
pub mod Handler
pub mod Chain
