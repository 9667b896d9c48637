-- ===== src/Tests.antt =====
-- Concrete runs of the model, and each theorem at an input that meets its hypotheses.
mod Announced
mod Configs
mod Rings
mod Requests
mod Serving
mod Tags
mod Lives
mod Programs
