-- ===== src/CString/Tests.antt =====
-- Runs of the string functions on "abc" at address 10.
use operating_system_cortex.Prelude.{◌+◌, refl, ltb, if◌then◌else◌, ◌&&◌, leb, arith}
use operating_system_cortex.Bytes.{Memory}
use operating_system_cortex.CString.{IsString}

abbrev abc : Memory
abc p = if leb 10 p && ltb p 13 then 87 + p else 0

abc-IsString : IsString 3 10 abc
abc-IsString = record { bytes = λ i h e. ground arith; end = refl }
