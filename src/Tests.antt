-- ===== src/Tests.antt =====
-- Runs of the model on concrete inputs, and applications of its theorems to concrete arguments.
mod Codecs
mod Machine
mod Remote
mod Wire
mod Files
mod Keys
mod Access
mod Channel
mod Parties
mod Provisioning
mod Serving
mod Recipe
mod Processes
mod Controllers
