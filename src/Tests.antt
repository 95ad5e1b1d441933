-- ===== src/Tests.antt =====
-- Tests of the models and theorems at concrete inputs.
mod Libs
mod Intents
mod Ingress
mod Home
mod Sql
mod Events
mod Host
mod Assist
mod Providers
mod Core
mod Mqtt
mod Satellite
mod Pipeline
mod Router
mod Stores
mod Mic
