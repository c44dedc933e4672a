-- ===== src/Lint.antt =====
-- tools/cpplint.py, one module for each part of the checker.
pub mod Category
pub mod Event
pub mod State
pub mod Headers
pub mod Include
pub mod Function
pub mod Cleanse
pub mod Expression
pub mod Nesting
pub mod FileInfo
pub mod HeaderGuard
pub mod IncludeLine
pub mod Angle
pub mod TextInside
pub mod Lines
pub mod Bodies
pub mod SameModule
pub mod Standard
pub mod Sections
pub mod BraceStyle
pub mod Macros
pub mod Process
pub mod Arguments
pub mod WholeFile
pub mod Usage
pub mod Language
pub mod Style
pub mod Spacing
