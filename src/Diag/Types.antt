-- ===== src/Diag/Types.antt =====
-- The types of include/lsp/LspTypes.h that the diagnostic client fills in, and those of slang's
-- diagnostics that it reads.
use slang_server_verilator.Prelude.{ℕ, Bool, List, Option, Bytes}

-- `lsp::Position`, `lsp::Range` and `lsp::Location`; a `URI` is compared and hashed by its text.
pub record Position : Type 0 where
  pub line : ℕ
  pub character : ℕ

pub record Range : Type 0 where
  pub start : Position
  pub end : Position

pub record Location : Type 0 where
  pub uri : Bytes
  pub range : Range

pub data LspSeverity : Type 0 where
  error warning information hint : LspSeverity

pub record RelatedInformation : Type 0 where
  pub location : Location
  pub message : Bytes

pub data DiagnosticTag : Type 0 where
  unnecessary deprecated : DiagnosticTag

-- `lsp::Diagnostic`
pub record Diagnostic : Type 0 where
  pub range : Range
  pub severity : LspSeverity
  pub message : Bytes
  pub related : Option (List RelatedInformation)
  pub code : Option Bytes
  pub code_href : Option Bytes
  pub tags : Option (List DiagnosticTag)

-- `slang::DiagnosticSeverity`
pub data SlangSeverity : Type 0 where
  ignored note warning error fatal : SlangSeverity

-- The diagnostic codes that the source names; `other` is any further code.
pub data CodeName : Type 0 where
  no_top_modules command_line_warning command_line_error : CodeName
  unused_argument unused_assertion_decl unused_definition unused_genvar : CodeName
  unused_implicit_net unused_import unused_net unused_parameter unused_port : CodeName
  unused_type_parameter unused_typedef unused_variable unused_wildcard_import : CodeName
  other : ℕ → CodeName

-- `slang::DiagCode`: the flag says that its subsystem is `Analysis`.
pub record DiagCode : Type 0 where
  pub is_analysis : Bool
  pub name : CodeName

-- `slang::SourceLocation` and `slang::SourceRange`
pub record SourceLocation : Type 0 where
  pub buffer : ℕ
  pub offset : ℕ

pub record SourceRange : Type 0 where
  pub start : SourceLocation
  pub end : SourceLocation

-- A note of `slang::Diagnostic`
pub record Note : Type 0 where
  pub location : Option SourceLocation
  pub code : DiagCode
  pub args : List Bytes

-- `slang::ReportedDiagnostic`, with what is read of its original diagnostic
pub record ReportedDiagnostic : Type 0 where
  pub code : DiagCode
  pub severity : SlangSeverity
  pub formatted_message : Bytes
  pub location : SourceLocation
  pub ranges : List SourceRange
  pub expansion_locs : List SourceLocation
  pub notes : List Note
