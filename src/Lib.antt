-- ===== src/Lib.antt =====
-- Image2Prompt: its Python services, modelled and verified.
--
-- The program is a set of FastAPI services behind one gateway. A request reaches
-- services/gateway/app/main.py, which matches a route, counts the client's calls, checks the bearer
-- token and forwards it; the services keep their tables through SQLAlchemy sessions and ask one
-- another over /internal paths.
--
-- Base: shared helpers, and what the services share (a session with its committed and its working
--   state, a response that succeeds or fails, from services/shared/image2prompt_shared/dtos.py).
-- Gateway: services/gateway/app/main.py (`proxy`, `_match_route`, `_rate_key`, `_rate_limited`,
--   SecurityMiddleware) and ratelimit.py (both limiters). Gateway.RateLimit.RateLimiter is the
--   interface that the proxy takes, and the in-memory limiter fills it.
-- Customer: the sign-in of services/customer-service: the facade auth_facade.py, its DAOs, and the
--   tokens and password hashes of services/shared/image2prompt_shared/security.py.
--   Customer.Auth.History runs its operations in sequence.
-- Billing: payments_facade.py, stripe_service.py, billing_dao.py and payment_dao.py of
--   services/customer-service, and the monthly sweep of its main.py. The usage that it bills is the
--   answer of Kb.Daos.usage_by_customer.
-- Kb: services/kb-service: groups, banks, the ingest of generations, its jobs, and the vector stores
--   behind the record Kb.Stores.VectorStore.
-- Plans: the subscription plans of services/admin-service (subscriptions_facade.py,
--   subscription_dao.py), which gate the banks and price the charges.
-- Admin: the sign-in of services/admin-service (auth_facade.py); Admin.Access the guards of its
--   endpoints (services/shared/image2prompt_shared/auth_dep.py, deps.py); Admin.Users the management
--   of administrators (admin_users_facade.py, admin_user_dao.py).
-- Customer.Profile: profile_facade.py and preference_dao.py of services/customer-service.
-- Connections: the connected drives of services/customer-service (connections_facade.py,
--   connection_dao.py), whose tokens Crypto seals. The drives are an interface, whose answers are
--   arguments of each operation.
-- Crypto: services/shared/image2prompt_shared/crypto.py, the cipher of secrets at rest.
-- Providers: the AI providers of services/admin-service (providers_facade.py, provider_dao.py,
--   masking.py), whose configurations Crypto seals; Providers.Codec stands in for JSON in the tests.
-- Violations: the CSP violations of services/admin-service (csp_violation_dao.py, csp_facade.py), which
--   Gateway.Csp, the gateway's sink, posts.
-- Image: services/image-processing-service: the facade that resolves the providers, stores an upload,
--   fans out to the adapters and keeps the result, and the reads of its DAOs.
-- Adapters: services/ai-adapters: the registry of controllers and their invocation. Image.Wire puts
--   it at the other end of the image facade's calls.
--
-- A function that changes state takes the state and returns it with its answer; clocks, random ids
-- and salts are arguments. A table is the list of its rows in the order of insertion, and a row that
-- is read by its key is the first with that key. An exception that leaves a request is a value of the
-- result, and rolls the session back. PyJWT, bcrypt, Redis, Stripe, the HTTP client, the embedder and
-- the third-party vector stores are parameters, with what they document as laws. Loops are structural
-- recursion over the lists that the source walks; the one fuel is that of the decimal digits of a
-- number, which the number itself bounds.
--
-- Not modelled: similarity queries (floating point), the SDKs of the vendors and
-- the HTTP calls of the drives, projects, logging and metrics, controllers and schemas, the portals, and
-- deployment. Money is an exact whole number of millionths (Base.Money), rounded where the source
-- rounds, where the source has floats, whose own imprecision is left out. JSON lists of stacks are
-- lists, as the schemas of the requests enforce. Requests run one after the other, each in one session.

pub mod Base
pub mod Gateway
pub mod Customer
pub mod Billing
pub mod Kb
pub mod Plans
pub mod Admin
pub mod Adapters
pub mod Image
pub mod Crypto
pub mod Providers
pub mod Violations
pub mod Connections
