-- ===== src/Prelude/Output.antt =====
-- What the programs print: the calls of `fmt.Printf` with their arguments, in order. What `fmt` makes
-- of a format is not modelled.
use Prim.Native.String.{String}
use mathlib.Core.Bool.{Bool}
use mathlib.Core.List.{List}
use valk.Prelude.Int.{ℤ}

pub data Arg : Type 0 where
  int : ℤ → Arg
  bool : Bool → Arg
  text : String → Arg

pub data Line : Type 0 where
  printf : String → List Arg → Line
