-- ===== src/Tests.antt =====
-- Concrete worlds, runs of the operations on them, and the theorems at inputs that meet their
-- hypotheses.
mod Fixture
mod Permission
mod Document
mod Share
mod Collab
mod Local
mod Office
mod Accounts
mod Http
