-- ===== src/Auth.antt =====
-- API keys, principals and the authority of a request (auth.py, auth_cli.py and the dependencies of
-- api.py).
pub mod Texts
pub mod Keys
pub mod Secrets
pub mod State
pub mod Resolve
pub mod Operator
pub mod Access
